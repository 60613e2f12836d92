-- ===== src/Contexts/Counted.antt =====
-- The reference counts are true, so that a context is freed when its last user is gone and not
-- before.
use tap_windows.Base.{
  ℕ, zero, suc, ◌+◌, ◌^◌, ◌≤◌, ◌<◌, ◌≡◌, refl, ap, arith, Bool, true, false, not, ◌&&◌, ◌||◌, List,
  [], ◌∷◌, ◌++◌, Option, none, some, ◌==◌, length, get_elem?, subst, Bool-cases, Option-cases, inl,
  inr, ◌↔◌,
}
use tap_windows.Adapter.{is_open}
use tap_windows.Contexts.{
  Context, Event, reference, dereference, allocate, add_to_global_list, remove_from_global_list,
  halt, from_device_object, open_file, open_diag, close_file, close_diag, halt_once, update, handle,
  handle_all, created, opened, diag_opened, file_closed, diag_closed, halted_at,
}

abbrev pub bit : Bool → ℕ
bit false = 0
bit true = 1

-- Those who use a context: the adapter until it is halted, the global list, the files.
abbrev pub users : Context → ℕ
users c = bit (not c.halted) + bit c.linked + bit (is_open c.tap_file_object) + c.diag_handles

-- With at most `n` files of the diagnostic device: the count is that of the users, and the context
-- is freed if it has none; it is in the list until it is halted.
pub record IsOwned (n : ℕ) (c : Context) : Type 0 where
  pub bound : c.diag_handles ≤ n
  pub count : c.ref_count ≡ users c
  pub freed : c.freed ≡ (users c == 0)
  pub linked : c.linked ≡ not c.halted

module _ (n : ℕ) (small : n < 2 ^ 31) (c : Context) (h : IsOwned n c) where
  close_file-IsOwned : IsOwned (suc n) (close_file c)
  unfolding close_file dereference
  close_file-IsOwned = record {
    bound = ground (arith, h);
    count = ground (arith, h);
    freed = ground (arith, h);
    linked = ground (arith, h);
  }

  close_diag-IsOwned : IsOwned (suc n) (close_diag c)
  unfolding close_diag dereference
  close_diag-IsOwned = record {
    bound = ground (arith, h);
    count = ground (arith, h);
    freed = ground (arith, h);
    linked = ground (arith, h);
  }

  halt_once-IsOwned : IsOwned (suc n) (halt_once c)
  unfolding halt_once halt remove_from_global_list dereference
  halt_once-IsOwned = record {
    bound = ground (arith, h);
    count = ground (arith, h);
    freed = ground (arith, h);
    linked = ground (arith, h);
  }

  open_file-IsOwned : (file : ℕ) → c.linked ≡ true → IsOwned (suc n) (open_file file (reference c))
  unfolding open_file reference dereference
  open_file-IsOwned file here = record {
    bound = ground (arith, h);
    count = ground (arith, h);
    freed = ground (arith, h);
    linked = ground (arith, h);
  }

  open_diag-IsOwned : c.linked ≡ true → IsOwned (suc n) (open_diag (reference c))
  unfolding open_diag reference
  open_diag-IsOwned here = record {
    bound = ground (arith, h);
    count = ground (arith, h);
    freed = ground (arith, h);
    linked = ground (arith, h);
  }

  later-IsOwned : IsOwned (suc n) c
  later-IsOwned = record {
    bound = omega (arith, h.bound);
    count = h.count;
    freed = h.freed;
    linked = h.linked;
  }

new-IsOwned : (n device diag : ℕ) → IsOwned n (add_to_global_list (allocate device diag))
unfolding add_to_global_list allocate reference
new-IsOwned n device diag = record {
  bound = omega arith;
  count = refl;
  freed = refl;
  linked = refl;
}

abbrev AllOwned : ℕ → List Context → Type 0
AllOwned n [] = Unit
AllOwned n (c ∷ cs) = IsOwned n c × AllOwned n cs

later-AllOwned : (n : ℕ) → n < 2 ^ 31 → (cs : List Context) → AllOwned n cs → AllOwned (suc n) cs
later-AllOwned n small [] h = h
later-AllOwned n small (c ∷ cs) h = (later-IsOwned n small c h.0, later-AllOwned n small cs h.1)

update-AllOwned :
    (n i : ℕ) (f : Context → Context) (cs : List Context)
    → n < 2 ^ 31
    → ((c : Context) → IsOwned n c → IsOwned (suc n) (f c))
    → AllOwned n cs
    → AllOwned (suc n) (update i f cs)
unfolding update
update-AllOwned n i f [] small keeps h = h
update-AllOwned n zero f (c ∷ cs) small keeps h = (keeps c h.0, later-AllOwned n small cs h.1)
update-AllOwned n (suc i) f (c ∷ cs) small keeps h =
    (later-IsOwned n small c h.0, update-AllOwned n i f cs small keeps h.1)

found-AllOwned :
    (n device : ℕ) (f : Context → Context) (cs : List Context)
    → n < 2 ^ 31
    → ((c : Context) → IsOwned n c → c.linked ≡ true → IsOwned (suc n) (f (reference c)))
    → AllOwned n cs
    → AllOwned (suc n) (from_device_object device f cs)
unfolding from_device_object
found-AllOwned n device f [] small keeps h = h
found-AllOwned n device f (c ∷ cs) small keeps h =
    let here =
      not (device == 0)
      && c.linked
      && (c.device_object == device || c.diag_device_object == device) in
    elim (Bool-cases here) [
      | inl match ↦ rw match (keeps c h.0 (ground (arith, match)), later-AllOwned n small cs h.1)
      | inr other ↦
          rw other (later-IsOwned n small c h.0, found-AllOwned n device f cs small keeps h.1)
    ]

append-AllOwned :
    (n : ℕ) (cs : List Context) (c : Context)
    → AllOwned n cs
    → IsOwned n c
    → AllOwned n (cs ++ (c ∷ []))
append-AllOwned n [] c h v = (v, tt)
append-AllOwned n (d ∷ cs) c h v = (h.0, append-AllOwned n cs c h.1 v)

handle-AllOwned :
    (n : ℕ) (cs : List Context) (e : Event)
    → n < 2 ^ 31
    → AllOwned n cs
    → AllOwned (suc n) (handle cs e)
unfolding handle
handle-AllOwned n cs (created device diag) small h =
    append-AllOwned (suc n) cs _ (later-AllOwned n small cs h) (new-IsOwned (suc n) device diag)
handle-AllOwned n cs (opened device file) small h =
    found-AllOwned n device (open_file file) cs small
      (λ c v here. open_file-IsOwned n small c v file here) h
handle-AllOwned n cs (diag_opened device) small h =
    found-AllOwned n device open_diag cs small (λ c v here. open_diag-IsOwned n small c v here) h
handle-AllOwned n cs (file_closed i) small h =
    update-AllOwned n i close_file cs small (λ c v. close_file-IsOwned n small c v) h
handle-AllOwned n cs (diag_closed i) small h =
    update-AllOwned n i close_diag cs small (λ c v. close_diag-IsOwned n small c v) h
handle-AllOwned n cs (halted_at i) small h =
    update-AllOwned n i halt_once cs small (λ c v. halt_once-IsOwned n small c v) h

handle_all-AllOwned :
    (es : List Event) (n : ℕ) (cs : List Context)
    → n + length es < 2 ^ 31
    → AllOwned n cs
    → AllOwned (n + length es) (handle_all cs es)
unfolding handle_all
handle_all-AllOwned [] n cs few h = subst (λ (k : ℕ). AllOwned k cs) (omega arith) h
handle_all-AllOwned (e ∷ es) n cs few h =
    subst (λ (k : ℕ). AllOwned k (handle_all (handle cs e) es)) (omega arith)
      (handle_all-AllOwned es (suc n) (handle cs e) (omega arith)
        (handle-AllOwned n cs e (omega arith) h))

get-AllOwned :
    (n i : ℕ) (cs : List Context) (c : Context)
    → AllOwned n cs
    → get_elem? cs i ≡ some c
    → IsOwned n c
get-AllOwned n i [] c h e = absurd (ground (arith, e))
get-AllOwned n zero (d ∷ cs) c h e =
    subst (IsOwned n) (ap (λ (o : Option Context). elim o [ none ↦ d | some x ↦ x ]) e) h.0
get-AllOwned n (suc i) (d ∷ cs) c h e = get-AllOwned n i cs c h.1 e

-- After any history of adapters that come and are halted and of files that are opened and closed,
-- fewer than 2 ^ 31 of these events: the context of an adapter has been freed if and only if the
-- adapter was halted and neither device of it has an open file; so it is never freed under a file
-- that still refers to it, and it is not leaked. And it can be found in the global list until the
-- adapter is halted, and not after that.
pub context_freed :
    (es : List Event) (i : ℕ) (c : Context)
    → length es < 2 ^ 31
    → get_elem? (handle_all [] es) i ≡ some c
    → ((c.freed ≡ true) ↔ ((c.halted ≡ true) × (c.tap_file_object ≡ none) × (c.diag_handles ≡ 0)))
      × (c.linked ≡ not c.halted)
context_freed es i c few e =
    let h = get-AllOwned _ i _ c (handle_all-AllOwned es 0 [] (omega (arith, few)) tt) e in
    (ground (arith, h.freed, h.linked, Option-cases c.tap_file_object), h.linked)
