-- ===== src/DebugLog/Lines.antt =====
-- The lines that the application reads from the log of src/error.c are those that were printed.
use tap_windows.Base.{
  drop-later, drop-into, take-write_prefix, ℕ, zero, suc, ◌+◌, ◌-◌, ◌≤◌, ◌<◌, ◌≡◌, ◌≢◌, ◌∙◌, refl,
  sym, ap, subst, arith, Bool, true, false, List, [], ◌∷◌, ◌++◌, map, append-nil, append_assoc,
  some, length, take, drop, replicate, write_at, length-write_at, length-append, length-take,
  length-drop, min,
}
use tap_windows.DebugLog.{
  DebugOutput, Printf, newline_exists, print_result, my_debug_print, pending, read_line, next_line,
  is_nil, get_debug_line, finish_line, rewind,
}

-- What the driver relies on of RtlStringCchVPrintfExA: a text that fits with its terminator is
-- written with it, and the end is the offset of the terminator.
unfoldable pub IsPrintf : Printf → Type 0
IsPrintf printf =
    (line m : List ℕ) (o r : ℕ)
    → length line < r
    → printf line m o r ≡ (some (o + length line), write_at m o (line ++ 0 ∷ []))

-- A log that lost nothing.
pub record IsLog (g : DebugOutput) : Type 0 where
  pub allocated : g.has_text ≡ true
  pub size : length g.text ≡ g.capacity
  pub order : g.start ≤ g.out
  pub bound : g.out < g.capacity
  pub complete : g.error ≡ false

-- A character of a line.
unfoldable pub IsChar : ℕ → Type 0
IsChar c = (c ≢ 10) × (c ≢ 0)

-- The characters of a line, which has neither a newline nor a terminator.
pub data IsText : List ℕ → Type 0 where
  end : IsText []
  char : {line : List ℕ} (c : ℕ) → IsChar c → IsText line → IsText (c ∷ line)

-- A line that is not empty and that a buffer of `len` bytes holds with its newline and terminator.
pub record IsLine (len : ℕ) (line : List ℕ) : Type 0 where
  pub chars : IsText line
  pub some_char : is_nil line ≡ false
  pub fits : length line + 2 ≤ len

read_line-line :
    (room : ℕ) (line rest : List ℕ)
    → IsText line
    → length line < room
    → read_line (line ++ 10 ∷ rest) room ≡ (line, suc (length line))
unfolding read_line IsChar
read_line-line zero line rest t h = absurd (omega arith)
read_line-line (suc room) _ rest end h = refl
read_line-line (suc room) (c ∷ line) rest (char _ (newline, terminator) t) h =
    let ih = read_line-line room line rest t (omega (arith, h)) in ground (arith, newline, ih)

newline_exists-line : (line rest : List ℕ) → IsText line → newline_exists (line ++ 10 ∷ rest) ≡ true
unfolding newline_exists IsChar
newline_exists-line _ rest end = refl
newline_exists-line (c ∷ line) rest (char _ (newline, terminator) t) =
    ground (arith, newline, terminator, newline_exists-line line rest t)

drop-line : (line rest : List ℕ) → drop (suc (length line)) (line ++ 10 ∷ rest) ≡ rest
drop-line [] rest = refl
drop-line (c ∷ line) rest = drop-line line rest

printed : DebugOutput → List ℕ → DebugOutput
printed g line = record g {
  text = write_at g.text g.out (line ++ 0 ∷ []);
  out = g.out + length line;
}

print_eq :
    (printf : Printf) (g : DebugOutput) (line : List ℕ)
    → IsPrintf printf
    → IsLog g
    → length line + g.out < g.capacity
    → my_debug_print printf true true line g ≡ printed g line
unfolding my_debug_print print_result IsPrintf printed
print_eq printf g line spec v h =
    let wrote = spec line g.text g.out (g.capacity - g.out) (omega (arith, h)) in
    ground (arith, wrote, v.allocated, v.bound)

printed-IsLog :
    (g : DebugOutput) (line : List ℕ)
    → IsLog g
    → length line + g.out < g.capacity
    → IsLog (printed g line)
unfolding printed
printed-IsLog g line v h = record {
  allocated = v.allocated;
  size = length-write_at g.text g.out (line ++ 0 ∷ []) ∙ v.size;
  order = omega (arith, v.order);
  bound = omega (arith, h);
  complete = v.complete;
}

printed-pending :
    (g : DebugOutput) (line : List ℕ)
    → IsLog g
    → length line + g.out < g.capacity
    → pending (printed g line) ≡ pending g ++ line
unfolding printed
printed-pending g line v h =
    let size = v.size in
    let text =
      take-write_prefix g.text g.out (g.out + length line) line (0 ∷ []) refl
        (omega (arith, h, size)) in
    let start = v.order in
    let bound = v.bound in
    let before : g.start ≤ length (take g.out g.text) =
      rw length-take (omega (arith, start, bound, size)) in
    rw text (drop-into g.start (take g.out g.text) line before)

get-line :
    (len : ℕ) (g : DebugOutput) (line rest : List ℕ)
    → IsLine len line
    → IsLog g
    → pending g ≡ line ++ 10 ∷ rest
    → get_debug_line true len g
      ≡ (true, write_at (replicate len 0) 0 line, record g { start = g.start + suc (length line) })
unfolding get_debug_line next_line finish_line
get-line len g line rest l v e =
    let found = newline_exists-line line rest l.chars in
    let read = read_line-line (len - 1) line rest l.chars (omega (arith, l.fits)) in
    ground (arith, found, read, e, l.some_char, v.allocated, v.bound, v.complete)

got-IsLog :
    (g : DebugOutput) (n : ℕ)
    → IsLog g
    → n ≤ length (pending g)
    → IsLog (record g { start = g.start + n })
got-IsLog g n v h =
    let size : length (pending g) ≡ min g.out (length g.text) - g.start =
      length-drop g.start (take g.out g.text) ∙ ap (λ k. k - g.start) (length-take g.out g.text) in
    record {
      allocated = v.allocated;
      size = v.size;
      order = omega (arith, v.order, size, h);
      bound = v.bound;
      complete = v.complete;
    }

got-pending :
    (g : DebugOutput) (line rest : List ℕ)
    → pending g ≡ line ++ 10 ∷ rest
    → pending (record g { start = g.start + suc (length line) }) ≡ rest
got-pending g line rest e =
    drop-later g.start (suc (length line)) (g.start + suc (length line)) (take g.out g.text) refl
    ∙ ap (drop (suc (length line))) e
    ∙ drop-line line rest

-- The texts as the driver prints them, each with its newline.
abbrev pub joined : List (List ℕ) → List ℕ
joined [] = []
joined (line ∷ lines) = line ++ 10 ∷ joined lines

abbrev pub print_lines : Printf → List (List ℕ) → DebugOutput → DebugOutput
print_lines printf [] g = g
print_lines printf (line ∷ lines) g =
    print_lines printf lines (my_debug_print printf true true (line ++ 10 ∷ []) g)

-- So many requests for a line: the results, with the buffers, and the log.
abbrev pub get_lines : ℕ → ℕ → DebugOutput → List (Bool × List ℕ) × DebugOutput
get_lines zero len g = ([], g)
get_lines (suc n) len g =
    let (ok, buffer, h) = get_debug_line true len g in
    let (others, last) = get_lines n len h in ((ok, buffer) ∷ others, last)

-- What the application gets for a line.
abbrev pub delivered : ℕ → List ℕ → Bool × List ℕ
delivered len line = (true, write_at (replicate len 0) 0 line)

pub data AreLines (len : ℕ) : List (List ℕ) → Type 0 where
  end : AreLines len []
  next :
      {line : List ℕ} {lines : List (List ℕ)}
      → IsLine len line
      → AreLines len lines
      → AreLines len (line ∷ lines)

print_lines-IsLog :
    (printf : Printf) (lines : List (List ℕ)) (g : DebugOutput)
    → IsPrintf printf
    → IsLog g
    → length (joined lines) + g.out < g.capacity
    → IsLog (print_lines printf lines g)
      × (pending (print_lines printf lines g) ≡ pending g ++ joined lines)
unfolding printed
print_lines-IsLog printf [] g spec v h = (v, sym (append-nil (pending g)))
print_lines-IsLog printf (line ∷ lines) g spec v h =
    let text = line ++ 10 ∷ [] in
    let all = length-append line (10 ∷ joined lines) in
    let one = length-append line (10 ∷ []) in
    let fits : length text + g.out < g.capacity = omega (arith, h, all, one) in
    let after = printed g text in
    let (w, kept) =
      print_lines-IsLog printf lines after spec (printed-IsLog g text v fits)
        (omega (arith, h, all, one)) in
    subst
      (λ (b : DebugOutput).
        IsLog (print_lines printf lines b)
        × (pending (print_lines printf lines b) ≡ pending g ++ (line ++ 10 ∷ joined lines)))
      (sym (print_eq printf g text spec v fits))
      (
        w,
        kept
            ∙ ap (λ p. p ++ joined lines) (printed-pending g text v fits)
            ∙ append_assoc (pending g) text (joined lines)
            ∙ ap (λ p. pending g ++ p) (append_assoc line (10 ∷ []) (joined lines)),
      )

get_lines-joined :
    (len : ℕ) (lines : List (List ℕ)) (g : DebugOutput)
    → AreLines len lines
    → IsLog g
    → pending g ≡ joined lines
    → let (results, h) = get_lines (length lines) len g in
      (results ≡ map (delivered len) lines) × IsLog h × (pending h ≡ [])
get_lines-joined len _ g end v e = (refl, v, e)
get_lines-joined len _ g (next {line = line} {lines = lines} l ls) v e =
    let h = record g { start = g.start + suc (length line) } in
    let w : IsLog h = got-IsLog g (suc (length line)) v (
      subst (λ (p : List ℕ). suc (length line) ≤ length p) (sym e)
        (rw length-append (omega arith))) in
    let (same, x, empty) =
      get_lines-joined len lines h ls w (got-pending g line (joined lines) e) in
    subst
      (λ (r : Bool × List ℕ × DebugOutput).
        let (results, last) = get_lines (length lines) len r.2 in
        ((r.0, r.1) ∷ results ≡ delivered len line ∷ map (delivered len) lines)
        × IsLog last
        × (pending last ≡ []))
      (sym (get-line len g line (joined lines) l v e))
      (ap (λ r. delivered len line ∷ r) same, x, empty)

get-nothing :
    (len : ℕ) (g : DebugOutput)
    → IsLog g
    → pending g ≡ []
    → get_debug_line true len g ≡ (false, replicate len 0, record g { start = 0; out = 0 })
unfolding get_debug_line next_line finish_line rewind newline_exists is_nil
get-nothing len g v e =
    let size : 0 ≡ min g.out (length g.text) - g.start =
      sym (ap length e)
      ∙ length-drop g.start (take g.out g.text)
      ∙ ap (λ k. k - g.start) (length-take g.out g.text) in
    let met : g.start ≡ g.out = omega (arith, size, v.size, v.bound, v.order) in
    ground (arith, e, met, v.allocated, v.bound, v.complete)

-- Lines are printed, with their newlines, to a log that lost nothing and has nothing to read, and
-- there is room for all of them and a terminator. Each has at least one character, no newline and no
-- terminator, and a buffer of `len` bytes holds it with its newline and terminator. Then so many
-- calls of GetDebugLine with such buffers succeed, and they give the lines in the order in which
-- they were printed, with zeros after them. The next call fails and leaves the log without
-- characters from the start of its memory on.
pub get_lines-print_lines :
    (printf : Printf) (len : ℕ) (lines : List (List ℕ)) (g : DebugOutput)
    → IsPrintf printf
    → AreLines len lines
    → IsLog g
    → pending g ≡ []
    → length (joined lines) + g.out < g.capacity
    → let (results, h) = get_lines (length lines) len (print_lines printf lines g) in
      (results ≡ map (delivered len) lines)
      × (get_debug_line true len h ≡ (false, replicate len 0, record h { start = 0; out = 0 }))
get_lines-print_lines printf len lines g spec ls v empty few =
    let (w, all) = print_lines-IsLog printf lines g spec v few in
    let filled = all ∙ ap (λ p. p ++ joined lines) empty in
    let (same, x, nothing) = get_lines-joined len lines (print_lines printf lines g) ls w filled in
    (same, get-nothing len (get_lines (length lines) len (print_lines printf lines g)).1 x nothing)
