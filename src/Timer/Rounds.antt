-- ===== src/Timer/Rounds.antt =====
-- Which timers a round calls, and with which ids.
use Prim.Native.Nat.{bit_and}
use raptor_lite.Common.{
  ℕ, ◌+◌, ◌*◌, ◌/◌, ◌^◌, ◌≤◌, ◌<◌, ◌≡◌, refl, List, [], ◌∷◌, ◌++◌, length, ◌⊎◌, arith,
}
use raptor_lite.Words.{u32, u64, bit_or_shifted, bit_and-mask}
use raptor_lite.Container.Timeouts.{Deadline}
use raptor_lite.Timer.{join_tid, split_tid}

-- Every entry is due at the time.
abbrev pub AllDue : ℕ → List Deadline → Type 0
AllDue begin [] = Unit {0}
AllDue begin ((t, tid) ∷ ds) = (t ≤ begin) × AllDue begin ds

-- The table stops at an entry that is not due.
abbrev pub NoneDue : ℕ → List Deadline → Type 0
NoneDue begin [] = Unit {0}
NoneDue begin ((t, tid) ∷ ds) = begin < t

-- What the loop does, from its call `n` on: it calls the handlers of entries at the front, all due,
-- and stops at an entry that is not due, at the third call, or when 300 milliseconds have passed.
abbrev pub Fires : ℕ → (ℕ → ℕ) → ℕ → List Deadline → List Deadline × List Deadline → Type 0
Fires begin clock n ds r =
    (r.0 ++ r.1 ≡ ds)
    × AllDue begin r.0
    × (n + length r.0 ≤ 3)
    × (NoneDue begin r.1 ⊎ ((n + length r.0 ≡ 3) ⊎ ((i : ℕ) × (begin + 300 < clock i))))

-- The ids that `SetTimer` joins are the two that the handler is called with, if they have 32 bits.
pub split_tid-join_tid :
    (tid1 tid2 : ℕ) → tid1 < 2 ^ 32 → tid2 < 2 ^ 32 → split_tid (join_tid tid1 tid2) ≡ (tid1, tid2)
unfolding split_tid join_tid
split_tid-join_tid tid1 tid2 h k =
    let small : u64 (tid1 * 2 ^ 32) ≡ tid1 * 2 ^ 32 = omega arith in
    let whole = bit_or_shifted 32 tid1 tid2 k in
    let high : u32 ((tid1 * 2 ^ 32 + tid2) / 2 ^ 32) ≡ tid1 = omega arith in
    let low : u32 (bit_and (tid1 * 2 ^ 32 + tid2) 0xffffffff) ≡ tid2 =
      omega (arith, bit_and-mask 32 (tid1 * 2 ^ 32 + tid2)) in
    rw (small, whole, high, low) refl
