-- ===== src/Tests/DebugLog.antt =====
-- The debug log with concrete lines.
use tap_windows.Base.{
  ℕ, ◌+◌, ◌≡◌, refl, arith, true, false, List, [], ◌∷◌, ◌++◌, map, none, some, length, replicate,
  write_at, if◌then◌else◌, ltb,
}
use tap_windows.DebugLog.{DebugOutput, Printf, my_debug_init, get_debug_line, no_debug, is_nil}
use tap_windows.DebugLog.Lines.{
  IsPrintf, IsLog, IsChar, IsText, AreLines, print_lines, get_lines, delivered,
  get_lines-print_lines,
}

-- A function that writes what fits and else nothing.
abbrev all_or_nothing : Printf
all_or_nothing line m o r =
    if ltb (length line) r
    then (some (o + length line), write_at m o (line ++ 0 ∷ []))
    else (none, m)

all_or_nothing-IsPrintf : IsPrintf all_or_nothing
unfolding IsPrintf
all_or_nothing-IsPrintf line m o r h = ground (arith, h)

abbrev ring : DebugOutput
ring = my_debug_init (some (replicate 32 0)) 32

ring-IsLog : IsLog ring
unfolding my_debug_init no_debug
ring-IsLog = record {
  allocated = refl;
  size = refl;
  order = omega arith;
  bound = omega arith;
  complete = refl;
}

-- "up" and "tun"
abbrev two_lines : List (List ℕ)
two_lines = (0x75 ∷ 0x70 ∷ []) ∷ (0x74 ∷ 0x75 ∷ 0x6e ∷ []) ∷ []

two_lines-AreLines : AreLines 8 two_lines
unfolding IsChar is_nil
two_lines-AreLines =
    AreLines.next
      (record {
        chars =
            IsText.char _ (omega arith, omega arith)
              (IsText.char _ (omega arith, omega arith) IsText.end);
        some_char = refl;
        fits = omega arith;
      })
      (AreLines.next
        (record {
          chars =
              IsText.char _ (omega arith, omega arith)
                (IsText.char _ (omega arith, omega arith)
                  (IsText.char _ (omega arith, omega arith) IsText.end));
          some_char = refl;
          fits = omega arith;
        })
        AreLines.end)

get_lines-print_lines_example :
    let (results, h) = get_lines 2 8 (print_lines all_or_nothing two_lines ring) in
    (results ≡ map (delivered 8) two_lines)
    × (get_debug_line true 8 h ≡ (false, replicate {A = ℕ} 8 0, record h { start = 0; out = 0 }))
unfolding my_debug_init no_debug
get_lines-print_lines_example =
    get_lines-print_lines all_or_nothing 8 two_lines ring all_or_nothing-IsPrintf two_lines-AreLines
      ring-IsLog refl (omega arith)
