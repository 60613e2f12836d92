-- ===== src/DebugLog.antt =====
-- The log of the debug build that the application reads line by line: NewlineExists, MyDebugInit,
-- MyDebugFree, MyDebugPrint and GetDebugLine of src/error.c.
pub mod Lines
use tap_windows.Base.{
  ℕ, zero, suc, ◌+◌, ◌-◌, Bool, true, false, not, ◌&&◌, ◌||◌, List, [], ◌∷◌, ◌++◌, Option, none,
  some, length, take, drop, replicate, write_at, ◌==◌, if◌then◌else◌, ltb,
}

-- DebugOutput without its lock. `text` is the memory, and `has_text` says whether there is any;
-- `start` and `out` are its members `in` and `out`.
pub record DebugOutput : Type 0 where
  pub start : ℕ
  pub out : ℕ
  pub capacity : ℕ
  pub text : List ℕ
  pub has_text : Bool
  pub error : Bool

-- RtlStringCchVPrintfExA of a formatted text into memory at an offset, with so many bytes left: the
-- offset of the terminator it wrote, or none where it fails, and the memory.
abbrev pub Printf : Type 0
Printf = List ℕ → List ℕ → ℕ → ℕ → Option ℕ × List ℕ

-- NewlineExists in the characters of the memory from `str` to `str` + `len`
unfoldable pub newline_exists : List ℕ → Bool
newline_exists [] = false
newline_exists (c ∷ str) = if c == 10 then true else if c == 0 then false else newline_exists str

unfoldable pub no_debug : DebugOutput
no_debug = record { start = 0; out = 0; capacity = 0; text = []; has_text = false; error = false }

-- MyDebugInit, where the allocation gave this memory of `bufsiz` bytes or nothing
unfoldable pub my_debug_init : Option (List ℕ) → ℕ → DebugOutput
my_debug_init none bufsiz = no_debug
my_debug_init (some memory) bufsiz = record no_debug {
  text = memory;
  has_text = true;
  capacity = bufsiz;
}

-- MyDebugFree
unfoldable pub my_debug_free : DebugOutput → DebugOutput
my_debug_free g = no_debug

unfoldable pub print_result : DebugOutput → Option ℕ × List ℕ → DebugOutput
print_result g (some end, memory) = record g { text = memory; out = end }
print_result g (none, memory) = record g { text = memory; error = true }

-- MyDebugPrint of a formatted text. `can_print` is CAN_WE_PRINT, `owned` what ACQUIRE_MUTEX_ADAPTIVE
-- gives.
unfoldable pub my_debug_print : Printf → Bool → Bool → List ℕ → DebugOutput → DebugOutput
my_debug_print printf can_print owned line g =
    if g.has_text && ltb 0 g.capacity && can_print
    then if owned
      then if ltb g.out g.capacity
        then print_result g (printf line g.text g.out (g.capacity - g.out))
        else record g { error = true }
      else record g { error = true }
    else g

-- The characters of the memory from `in` to `out`.
abbrev pub pending : DebugOutput → List ℕ
pending g = drop g.start (take g.out g.text)

-- The loop of GetDebugLine over those characters, with room for so many in the buffer: what it moves
-- there, and by how much it advances `in`.
unfoldable pub read_line : List ℕ → ℕ → List ℕ × ℕ
read_line [] room = ([], 0)
read_line (c ∷ str) zero = ([], 0)
read_line (c ∷ str) (suc room) =
    let rest = read_line str room in if c == 10 then ([], 1) else (c ∷ rest.0, suc rest.1)

-- "[OUTPUT TRUNCATED]\n"
abbrev pub truncated : List ℕ
truncated =
    0x5b ∷ 0x4f ∷ 0x55 ∷ 0x54 ∷ 0x50 ∷ 0x55 ∷ 0x54 ∷ 0x20 ∷ 0x54 ∷ 0x52 ∷ 0x55 ∷ 0x4e ∷ 0x43 ∷ 0x41
    ∷ 0x54 ∷ 0x45 ∷ 0x44 ∷ 0x5d ∷ 10 ∷ []

-- The mark that something was lost, where there is room for it.
unfoldable pub mark_truncated : DebugOutput → DebugOutput
mark_truncated g =
    if ltb (length truncated) g.capacity
    then record g {
      text = write_at g.text 0 (truncated ++ 0 ∷ []);
      out = length truncated;
      error = false;
    }
    else record g { error = false }

-- What GetDebugLine does where it moved no character.
unfoldable pub rewind : DebugOutput → DebugOutput
rewind g =
    if g.start == g.out
    then if g.error
      then mark_truncated (record g { start = 0; out = 0 })
      else record g { start = 0; out = 0 }
    else g

-- What GetDebugLine moves, and by how much it advances `in`.
unfoldable pub next_line : DebugOutput → ℕ → List ℕ × ℕ
next_line g len =
    if g.error || newline_exists (pending g) then read_line (pending g) (len - 1) else ([], 0)

unfoldable pub is_nil : List ℕ → Bool
is_nil [] = true
is_nil (c ∷ line) = false

-- GetDebugLine with the lock, after its loop
unfoldable pub finish_line : ℕ → DebugOutput → List ℕ × ℕ → Bool × List ℕ × DebugOutput
finish_line len g (line, n) =
    if is_nil line
    then (false, replicate len 0, rewind (record g { start = g.start + n }))
    else (true, write_at (replicate len 0) 0 line, record g { start = g.start + n })

-- GetDebugLine into a buffer of `len` bytes: the result, the buffer and the log. `owned` is what
-- ACQUIRE_MUTEX_ADAPTIVE gives.
unfoldable pub get_debug_line : Bool → ℕ → DebugOutput → Bool × List ℕ × DebugOutput
get_debug_line owned len g =
    if g.has_text && ltb 0 g.capacity && owned
    then finish_line len g (next_line g len)
    else (false, replicate len 0, g)
