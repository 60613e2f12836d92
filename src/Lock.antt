-- ===== src/Lock.antt =====
-- The mutex of src/lock.h, as threads at the places between its interlocked operations.
pub mod Exclusive
use tap_windows.Base.{
  ℕ, zero, suc, ◌+◌, ◌-◌, ◌%◌, ◌^◌, ◌≡◌, Bool, true, false, List, Option, none, some, ◌==◌,
  if◌then◌else◌, get_elem?, set, u32,
}

-- ACQUIRE_MUTEX_BLOCKING, ACQUIRE_MUTEX_NONBLOCKING, and ACQUIRE_MUTEX_ADAPTIVE by a thread whose
-- IRQL is or is not below DISPATCH_LEVEL
pub data Kind : Type 0 where
  blocking nonblocking : Kind
  adaptive : Bool → Kind

-- Where a thread is: outside, before the increment, after one that did not give 1, in NdisMSleep, and
-- with the mutex
pub data Place : Type 0 where
  outside holding : Place
  trying undoing sleeping : Kind → Place

-- NdisInterlockedIncrement and NdisInterlockedDecrement of the count, a 32-bit number
abbrev pub increment : ℕ → ℕ
increment count = u32 (count + 1)

abbrev pub decrement : ℕ → ℕ
decrement count = u32 (count + 2 ^ 32 - 1)

-- Where the increment leads, by the count that it gave
unfoldable pub tried : Kind → ℕ → Place
tried kind count = if count == 1 then holding else undoing kind

-- Where a thread is after it took its increment back: it sleeps, or its result is FALSE.
unfoldable pub undone : Kind → Place
undone Kind.blocking = sleeping Kind.blocking
undone Kind.nonblocking = outside
undone (Kind.adaptive true) = sleeping (Kind.adaptive true)
undone (Kind.adaptive false) = outside

-- What one thread does next: the count and its place, before and after. The last is RELEASE_MUTEX.
pub data Move : ℕ → Place → ℕ → Place → Type 0 where
  request : (count : ℕ) (kind : Kind) → Move count outside count (trying kind)
  attempt :
      (count : ℕ) (kind : Kind)
      → Move count (trying kind) (increment count) (tried kind (increment count))
  undo : (count : ℕ) (kind : Kind) → Move count (undoing kind) (decrement count) (undone kind)
  wake : (count : ℕ) (kind : Kind) → Move count (sleeping kind) count (trying kind)
  release : (count : ℕ) → Move count holding (decrement count) outside

-- The mutex and the threads that use it
pub record Mutex : Type 0 where
  pub count : ℕ
  pub threads : List Place

-- One thread moves.
pub data Step : Mutex → Mutex → Type 0 where
  move :
      (m : Mutex) (i : ℕ) (p q : Place) (count : ℕ)
      → get_elem? m.threads i ≡ some p
      → Move m.count p count q
      → Step m (record { count = count; threads = set m.threads i q })

pub data Reach (m : Mutex) : Mutex → Type 0 where
  here : Reach m m
  next : {n o : Mutex} → Reach m n → Step n o → Reach m o
