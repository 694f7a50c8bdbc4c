-- ===== src/Timer.antt =====
-- src/utils/timer.cc: the table of timers, a `std::multimap` from deadlines to ids, and the rounds of
-- its thread. The clock is an argument; sleeping is left out, and the queue of requests is a list.
pub mod Rounds
use Prim.Native.Nat.{bit_and, bit_or}
use raptor_lite.Common.{
  ℕ, zero, suc, ◌+◌, ◌*◌, ◌/◌, ◌^◌, Bool, true, false, ◌||◌, List, [], ◌∷◌, ◌++◌, ltb, leb,
  if◌then◌else◌,
}
use raptor_lite.Words.{u32, u64}
use raptor_lite.Container.Timeouts.{Deadline, insert}

-- `TimerNode` is a pair of its `dead_line` and its `tid`. `running` is `!_shutdown`.
pub record Timer : Type 0 where
  pub running : Bool
  pub mq : List Deadline
  pub tbls : List Deadline

-- The constructor.
abbrev pub new_timer : Timer
new_timer = record { running = false; mq = []; tbls = [] }

-- `uint64_t(tid1) << 32 | tid2`
unfoldable pub join_tid : ℕ → ℕ → ℕ
join_tid tid1 tid2 = bit_or (u64 (tid1 * 2 ^ 32)) tid2

-- The two arguments of `OnTimer`.
unfoldable pub split_tid : ℕ → ℕ × ℕ
split_tid tid = (u32 (tid / 2 ^ 32), u32 (bit_and tid 0xffffffff))

-- `SetTimer` at the time `now`.
pub set_timer : Timer → (tid1 tid2 delay_ms now : ℕ) → Timer
set_timer t tid1 tid2 delay_ms now =
    if t.running then record t { mq = t.mq ++ (now + delay_ms, join_tid tid1 tid2) ∷ [] } else t

-- The entry that a round takes from the queue, if there is one.
take_request : Timer → List Deadline → Timer
take_request t [] = t
take_request t (d ∷ ds) = record t { mq = ds; tbls = insert d t.tbls }

-- The loop over the table, after `timer_count` calls of the handler: the entries whose handler it
-- calls, and those that it leaves. `clock i` is the time after the call `i` of the round.
unfoldable pub fire :
    (begin : ℕ) → (ℕ → ℕ) → (timer_count : ℕ) → List Deadline → List Deadline × List Deadline
fire begin clock timer_count [] = ([], [])
fire begin clock timer_count ((t, tid) ∷ ds) =
    let rest = fire begin clock (timer_count + 1) ds in
    if ltb begin t
    then ([], (t, tid) ∷ ds)
    else if leb 3 (timer_count + 1) || ltb (begin + 300) (clock timer_count)
    then ((t, tid) ∷ [], ds)
    else ((t, tid) ∷ rest.0, rest.1)

-- One round of `WorkThread`, with the entries whose handler it calls.
pub round : Timer → (begin : ℕ) → (ℕ → ℕ) → Timer × List Deadline
unfolding take_request
round t begin clock =
    let s = take_request t t.mq in
    let fired = fire begin clock 0 s.tbls in (record s { tbls = fired.1 }, fired.0)

-- `Shutdown` empties the queue and keeps the table.
pub shutdown_timer : Timer → Timer
shutdown_timer t = if t.running then record t { running = false; mq = [] } else t
