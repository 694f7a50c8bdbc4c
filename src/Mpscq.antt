-- ===== src/Mpscq.antt =====
-- src/utils/mpscq.cc: the queue of many producers and one consumer. A node is its address, and the
-- fields `next` of all nodes are the store. Each atomic operation is one step; the clearing of a
-- node's own `next`, which no other thread can read before the exchange, is taken with the exchange.
pub mod Chain
pub mod Moves
pub mod Fifo
pub mod Waiting
use raptor_lite.Common.{
  ℕ, zero, suc, Bool, true, false, Option, none, some, List, [], ◌∷◌, ◌==◌, ◌≡◌, if◌then◌else◌,
}

-- `&_stub`
abbrev pub stub : ℕ
stub = 0

-- Where the consumer is in `PopAndCheckEnd`: outside, before the load of `tail->next`, before the
-- load of `_newest`, before `push(&_stub)`, between its exchange and its store, before the last load.
pub data Pc : Type 0 where
  idle : Pc
  second newest_load reset : (tail : ℕ) → Pc
  relink : (tail prev : ℕ) → Pc
  last : (tail : ℕ) → Pc

-- `linking prev` is the node of the call of `push` that has put it behind `prev` and has not yet
-- stored it in `prev->next`.
pub record Queue : Type 0 where
  pub next : ℕ → Option ℕ
  pub linking : ℕ → Option ℕ
  pub newest : ℕ
  pub oldest : ℕ
  pub pc : Pc

abbrev pub set : (ℕ → Option ℕ) → ℕ → Option ℕ → ℕ → Option ℕ
set f node to n = if n == node then to else f n

abbrev pub new_queue : Queue
new_queue = record {
  next = λ n. none;
  linking = λ n. none;
  newest = stub;
  oldest = stub;
  pc = idle;
}

-- `push`: its first two statements, and its third.
abbrev pub exchange : Queue → ℕ → Queue
exchange s node = record s {
  next = set s.next node none;
  linking = set s.linking s.newest (some node);
  newest = node;
}

abbrev pub link : Queue → ℕ → ℕ → Queue
link s prev node = record s {
  next = set s.next prev (some node);
  linking = set s.linking prev none;
}

-- `push` with no step of another thread in between, and what it returns.
pub push : Queue → ℕ → Queue × Bool
push s node = (link (exchange s node) s.newest node, s.newest == stub)

-- What a step shows outside: nothing, a node that enters, a node that `pop` returns, a null that it
-- returns with `*empty`.
pub data Label : Type 0 where
  silent : Label
  entered returned : ℕ → Label
  gave_up : (empty : Bool) → Label

abbrev pub at_pc : Queue → Pc → Queue
at_pc s p = record s { pc = p }

-- `_oldest = obj; return tail;`
abbrev pub hand_out : Queue → ℕ → ℕ → Queue × Label
hand_out s tail obj = (record s { oldest = obj; pc = idle }, returned tail)

-- The test `obj != nullptr` behind the first loads, with a `tail` that is not the stub.
unfoldable pub loaded : Queue → ℕ → Option ℕ → Queue × Label
loaded s tail (some obj) = hand_out s tail obj
loaded s tail none = (at_pc s (newest_load tail), silent)

-- The branch `tail == &_stub`
unfoldable pub past_stub : Queue → Option ℕ → Queue × Label
past_stub s none = (at_pc s idle, gave_up true)
past_stub s (some obj) = (record s { oldest = obj; pc = second obj }, silent)

-- What follows the last load.
unfoldable pub last_loaded : Queue → ℕ → Option ℕ → Queue × Label
last_loaded s tail (some obj) = hand_out s tail obj
last_loaded s tail none = (at_pc s idle, gave_up false)

-- One step of the consumer in `PopAndCheckEnd`, up to its next access to shared memory.
unfoldable pub consume_at : Queue → Pc → Queue × Label
unfolding loaded past_stub last_loaded
consume_at s idle =
    if s.oldest == stub then past_stub s (s.next s.oldest) else loaded s s.oldest (s.next s.oldest)
consume_at s (second tail) = loaded s tail (s.next tail)
consume_at s (newest_load tail) =
    if tail == s.newest then (at_pc s (reset tail), silent) else (at_pc s idle, gave_up false)
consume_at s (reset tail) = (at_pc (exchange s stub) (relink tail s.newest), silent)
consume_at s (relink tail prev) = (at_pc (link s prev stub) (last tail), silent)
consume_at s (last tail) = last_loaded s tail (s.next tail)

unfoldable pub consume : Queue → Queue × Label
unfolding consume_at
consume s = consume_at s s.pc

-- A step of any thread. A producer links its own node, which is not the stub.
pub data Step (s : Queue) : Label → Queue → Type 0 where
  enter : (node : ℕ) → Step s (entered node) (exchange s node)
  finish :
      (prev node : ℕ)
      → s.linking prev ≡ some node
      → (node == stub) ≡ false
      → Step s silent (link s prev node)
  by_consumer : Step s (consume s).1 (consume s).0

-- Steps in any order, with what they show.
pub data Run : Queue → List Label → Queue → Type 0 where
  ended : {s : Queue} → Run s [] s
  stepped :
      {s t u : Queue} {l : Label} {ls : List Label} → Step s l t → Run t ls u → Run s (l ∷ ls) u

-- `PopAndCheckEnd` with no step of another thread in between; `none` is fuel too small.
unfoldable pub pop_from :
    (Queue × Label → Option (Queue × Option ℕ × Bool))
    → Queue × Label
    → Option (Queue × Option ℕ × Bool)
pop_from again (s, silent) = again (consume s)
pop_from again (s, entered n) = none
pop_from again (s, returned n) = some (s, some n, false)
pop_from again (s, gave_up empty) = some (s, none, empty)

unfoldable pub pop_within : ℕ → Queue × Label → Option (Queue × Option ℕ × Bool)
unfolding pop_from
pop_within zero r = none
pop_within (suc k) r = pop_from (pop_within k) r

unfoldable pub pop_and_check_end : Queue → Option (Queue × Option ℕ × Bool)
pop_and_check_end s = pop_within 6 (consume s)
