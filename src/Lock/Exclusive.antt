-- ===== src/Lock/Exclusive.antt =====
-- At most one thread has the mutex of src/lock.h.
use tap_windows.Base.{
  ℕ, zero, suc, ◌+◌, ◌-◌, ◌^◌, ◌≤◌, ◌<◌, ◌≡◌, refl, ap, arith, true, false, List, [], ◌∷◌, some,
  get_elem?, set, length, length-set, length-replicate, replicate, sym,
}
use tap_windows.Lock.{
  Kind, Place, outside, holding, trying, undoing, sleeping, tried, undone, Move, request, attempt,
  undo, wake, release, Mutex, Step, move, Reach, here, next, increment,
}

-- The threads at some places
module _ (weigh : Place → ℕ) where
  pub total : List Place → ℕ
  total [] = 0
  total (p ∷ threads) = weigh p + total threads

  total-set :
      (threads : List Place) (i : ℕ) (p q : Place)
      → get_elem? threads i ≡ some p
      → total (set threads i q) + weigh p ≡ total threads + weigh q
  unfolding total
  total-set [] i p q e = cc
  total-set (x ∷ threads) zero p q e = ground (arith, e)
  total-set (x ∷ threads) (suc i) p q e = omega (arith, total-set threads i p q e)

  weigh-le-total :
      (threads : List Place) (i : ℕ) (p : Place)
      → get_elem? threads i ≡ some p
      → weigh p ≤ total threads
  unfolding total
  weigh-le-total [] i p e = cc
  weigh-le-total (x ∷ threads) zero p e = ground (arith, e)
  weigh-le-total (x ∷ threads) (suc i) p e = omega (arith, weigh-le-total threads i p e)

  two-le-total :
      (threads : List Place) (i j : ℕ) (p q : Place)
      → get_elem? threads i ≡ some p
      → get_elem? threads j ≡ some q
      → total threads < weigh p + weigh q
      → i ≡ j
  unfolding total
  two-le-total [] i j p q e f h = cc
  two-le-total (x ∷ threads) zero zero p q e f h = refl
  two-le-total (x ∷ threads) zero (suc j) p q e f h =
      let other = weigh-le-total threads j q f in absurd (ground (arith, e, other, h))
  two-le-total (x ∷ threads) (suc i) zero p q e f h =
      let other = weigh-le-total threads i p e in absurd (ground (arith, f, other, h))
  two-le-total (x ∷ threads) (suc i) (suc j) p q e f h =
      ap suc (two-le-total threads i j p q e f (omega (arith, h)))

-- 1 for the thread that has the mutex
pub holds : Place → ℕ
holds holding = 1
holds _ = 0

-- 1 for a thread whose increment counts
pub counts : Place → ℕ
counts holding = 1
counts (undoing kind) = 1
counts _ = 0

-- The count is that of the increments that were not taken back, and at most one of them got the
-- mutex.
record IsSound (m : Mutex) : Type 0 where
  few : length m.threads < 2 ^ 32 - 1
  sound : m.count ≡ total counts m.threads
  one : total holds m.threads ≤ 1

counts-le-length : (threads : List Place) → total counts threads ≤ length threads
unfolding total counts
counts-le-length [] = omega arith
counts-le-length (outside ∷ threads) = omega (arith, counts-le-length threads)
counts-le-length (holding ∷ threads) = omega (arith, counts-le-length threads)
counts-le-length (trying kind ∷ threads) = omega (arith, counts-le-length threads)
counts-le-length (undoing kind ∷ threads) = omega (arith, counts-le-length threads)
counts-le-length (sleeping kind ∷ threads) = omega (arith, counts-le-length threads)

holds-le-counts : (threads : List Place) → total holds threads ≤ total counts threads
unfolding total counts holds
holds-le-counts [] = omega arith
holds-le-counts (outside ∷ threads) = omega (arith, holds-le-counts threads)
holds-le-counts (holding ∷ threads) = omega (arith, holds-le-counts threads)
holds-le-counts (trying kind ∷ threads) = omega (arith, holds-le-counts threads)
holds-le-counts (undoing kind ∷ threads) = omega (arith, holds-le-counts threads)
holds-le-counts (sleeping kind ∷ threads) = omega (arith, holds-le-counts threads)

undone-weights : (kind : Kind) → (counts (undone kind) ≡ 0) × (holds (undone kind) ≡ 0)
unfolding undone counts holds
undone-weights Kind.blocking = (refl, refl)
undone-weights Kind.nonblocking = (refl, refl)
undone-weights (Kind.adaptive true) = (refl, refl)
undone-weights (Kind.adaptive false) = (refl, refl)

-- A move changes the count by what the place of the thread counts for, and a thread gets the mutex
-- only where the count was 0. `n` is the number of increments that were not taken back, and `k` that
-- of the threads with the mutex.
Move-weights :
    {c d : ℕ} {p q : Place} (n k : ℕ)
    → Move c p d q
    → c ≡ n
    → n < 2 ^ 32 - 1
    → counts p ≤ n
    → k ≤ n
    → k ≤ 1
    → (d + counts p ≡ n + counts q) × (k + holds q ≤ 1 + holds p)
unfolding counts holds tried
Move-weights n k (request count kind) e few a b one = (omega arith, omega arith)
Move-weights n k (attempt count kind) e few a b one = (ground arith, ground arith)
Move-weights n k (undo count kind) e few a b one =
    let (x, y) = undone-weights kind in (omega (arith, x), omega (arith, y))
Move-weights n k (wake count kind) e few a b one = (omega arith, omega arith)
Move-weights n k (release count) e few a b one = (omega arith, omega arith)

Step-IsSound : {m n : Mutex} → Step m n → IsSound m → IsSound n
Step-IsSound (move m i p q count e mv) s =
    let n = total counts m.threads in
    let k = total holds m.threads in
    let few : n < 2 ^ 32 - 1 = omega (arith, counts-le-length m.threads, s.few) in
    let (a, b) =
      Move-weights n k mv s.sound few (weigh-le-total counts m.threads i p e)
        (holds-le-counts m.threads) s.one in
    let c = total-set counts m.threads i p q e in
    let h = total-set holds m.threads i p q e in
    record {
      few = omega (arith, length-set m.threads i q, s.few);
      sound = omega (arith, a, c);
      one = omega (arith, b, h);
    }

Reach-IsSound : {m n : Mutex} → IsSound m → Reach m n → IsSound n
Reach-IsSound s here = s
Reach-IsSound s (next r st) = Step-IsSound st (Reach-IsSound s r)

-- INIT_MUTEX, before any of so many threads asks for the mutex
abbrev pub init : ℕ → Mutex
init n = record { count = 0; threads = replicate n outside }

init-total : (weigh : Place → ℕ) (n : ℕ) → weigh outside ≡ 0 → total weigh (replicate n outside) ≡ 0
unfolding total
init-total weigh zero e = refl
init-total weigh (suc n) e = omega (arith, e, init-total weigh n e)

init-IsSound : (n : ℕ) → n < 2 ^ 32 - 1 → IsSound (init n)
unfolding counts holds
init-IsSound n few = record {
  few = omega (arith, length-replicate n outside);
  sound = sym (init-total counts n refl);
  one = omega (arith, init-total holds n refl);
}

-- However fewer than 2 ^ 32 - 1 threads acquire and release the mutex after INIT_MUTEX, each in any
-- of the three ways and in any order of their interlocked operations: at most one thread has the
-- mutex, and the count is the number of the threads that have it or are about to take their
-- increment back; so if there is no such thread, it is 0.
pub mutual_exclusion :
    (n : ℕ) (m : Mutex)
    → n < 2 ^ 32 - 1
    → Reach (init n) m
    → (total holds m.threads ≤ 1) × (m.count ≡ total counts m.threads)
mutual_exclusion n m few r = let s = Reach-IsSound (init-IsSound n few) r in (s.one, s.sound)

-- Two threads that have the mutex are the same.
pub holder_unique :
    (n : ℕ) (m : Mutex) (i j : ℕ)
    → n < 2 ^ 32 - 1
    → Reach (init n) m
    → get_elem? m.threads i ≡ some holding
    → get_elem? m.threads j ≡ some holding
    → i ≡ j
unfolding holds
holder_unique n m i j few r e f =
    let s = Reach-IsSound (init-IsSound n few) r in
    two-le-total holds m.threads i j holding holding e f (omega (arith, s.one))

-- While no thread has the mutex and none is about to take its increment back, the next thread that
-- tries gets it.
free_mutex :
    (n : ℕ) (m : Mutex) (kind : Kind)
    → n < 2 ^ 32 - 1
    → Reach (init n) m
    → total counts m.threads ≡ 0
    → tried kind (increment m.count) ≡ holding
unfolding tried
free_mutex n m kind few r quiet =
    let s = Reach-IsSound (init-IsSound n few) r in ground (arith, s.sound, quiet)
