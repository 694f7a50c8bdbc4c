-- ===== src/ContainerExamples.antt =====
-- The theorems on containers at a container with room for four connections.
use raptor_lite.Common.{
  zero, Option, ◌∙◌, Bool-cases, inl, inr, ◌==◌, ◌≤◌, get_elem?, eq_of_==, ℕ, ◌<◌, ◌^◌, ◌+◌, ◌≡◌,
  refl, subst, sym, List, true, false, none, some, [], ◌∷◌, arith, length, suc, ap, map, replicate,
}
use raptor_lite.Cid.{build_connection_id}
use raptor_lite.Container.{
  Slot, connection_of, Settings, Container, recv_a_message, heartbeat_event, check_connection_id,
}
use raptor_lite.Container.Admission.{
  first_of, check_connection_id-user, holder, Attached, attach_here, attach_here_index,
  check_connection_id-build,
}
use raptor_lite.Polling.{PollEvent, do_work}
use raptor_lite.Polling.Handling.{Ready, Holds, Healthy, Runs, IsEvent}
use raptor_lite.Polling.Rounds.{do_work-Runs}
use raptor_lite.Slice.{Slice, inlined}
use raptor_lite.Container.Messages.{dispatch}
use raptor_lite.Container.Dispatching.{
  Dispatched, uses, all_due, notified, received, timed, turned, uses-Dispatched, turns, turns-map,
}
use raptor_lite.Endpoint.{Endpoint}
use raptor_lite.Container.Table.{Inv}
use raptor_lite.Container.Starting.{new_container, init_table, init_table-Inv}
use raptor_lite.Container.Serving.{there}
use raptor_lite.Container.Expiry.{Checked, on_timeout_check-Checked}
use raptor_lite.SliceBuffer.{SliceBuffer, empty_buffer}
use raptor_lite.SliceBuffer.Contents.{contents, IsBuffer, empty_buffer-IsBuffer}
use raptor_lite.Common.Int.{ℤ, pos}
use raptor_lite.Protocol.Refine.{DecidesEarly}
use raptor_lite.Connection.{Connection, new_connection, Sent, sent, got}
use raptor_lite.Connection.Sending.{Honest}
use raptor_lite.Container.Ending.{Closed, connection_of_holder, close_endpoint-Closed}

-- A packet of its first byte and one more.
abbrev byte_check : List ℕ → ℤ
byte_check [] = pos 0
byte_check (x ∷ xs) = pos (suc x)

byte_check_early : DecidesEarly byte_check
byte_check_early [] h = absurd (omega arith)
byte_check_early (x ∷ xs) h = ((λ e. cc), refl)

abbrev settings : Settings
settings = record {
  default_container_size = 2;
  max_container_size = 4;
  connection_timeoutms = 60000;
  proto = some byte_check;
  heartbeat = some 1000;
  closed_handler = true;
  notify_handler = true;
}

abbrev start_time : ℕ
start_time = 1700000000000

abbrev fresh : Container
fresh = init_table (new_container settings 0 true) start_time

fresh-Inv : Inv fresh
fresh-Inv = (init_table-Inv settings 0 true start_time (omega arith) (omega arith)).0

fresh_magic : fresh.magic_number < 2 ^ 16
fresh_magic = (init_table-Inv settings 0 true start_time (omega arith) (omega arith)).2

fresh_free : fresh.free_index_list ≡ 0 ∷ 1 ∷ []
unfolding init_table
fresh_free = refl

abbrev accepted : Endpoint
accepted = record { fd = 5; connection_id = 77; attached = false; listen_port = 8080; ext_info = 0 }

-- The container with that endpoint attached, at index 0.
abbrev first_one : Attached fresh accepted start_time
first_one = attach_here fresh accepted start_time 0 (1 ∷ []) fresh-Inv fresh_free

abbrev holding : Container
holding = first_one.result

holding_first : holder holding 0 ≡ some first_one.con
holding_first =
    subst (λ (i : ℕ). holder holding i ≡ some first_one.con)
      (attach_here_index fresh accepted start_time 0 (1 ∷ []) fresh-Inv fresh_free) first_one.here

on_timeout_check-Checked_example : Checked holding (start_time + 60001)
on_timeout_check-Checked_example =
    on_timeout_check-Checked holding (start_time + 60001) first_one.kept

check_connection_id-build_example :
    check_connection_id fresh (build_connection_id fresh.magic_number 8080 3) ≡ some 3
unfolding init_table
check_connection_id-build_example =
    check_connection_id-build fresh 8080 3 fresh-Inv fresh_magic (omega arith) (omega arith)

abbrev closing : Endpoint
closing = record accepted { connection_id = build_connection_id holding.magic_number 8080 0 }

close_endpoint-Closed_example : Closed holding closing true 0
close_endpoint-Closed_example =
    close_endpoint-Closed holding closing true 8080 0 first_one.con first_one.kept
      (rw first_one.magic fresh_magic) (omega arith) refl holding_first

-- A socket that takes all that it is given.
abbrev eager : ℕ → List ℕ → Sent
eager i xs = sent (length xs)

eager-Honest : Honest eager
eager-Honest i xs n e = let same : length xs ≡ n = grind (arith, e) in omega (arith, same)

empty_first : first_one.con.rcv_buffer ≡ empty_buffer
empty_first = first_one.nothing_received

abbrev hello : Slice
hello = inlined 2 (9 ∷ 3 ∷ replicate 21 0)

uses-Dispatched_example :
    Dispatched fresh
      (uses fresh (notified accepted ∷ received accepted hello ∷ turned ∷ timed accepted ∷ [])).0
      (uses fresh (notified accepted ∷ received accepted hello ∷ turned ∷ timed accepted ∷ [])).1
      (all_due fresh.settings
        (notified accepted ∷ received accepted hello ∷ turned ∷ timed accepted ∷ []))
unfolding init_table
uses-Dispatched_example =
    uses-Dispatched fresh
      (notified accepted ∷ received accepted hello ∷ turned ∷ timed accepted ∷ []) refl

-- The same container with two messages in its queue.
abbrev waiting : Container
waiting = record fresh {
  queue = recv_a_message accepted hello ∷ heartbeat_event accepted ∷ [];
  count = 2;
}

turns-map_example :
    ((uses waiting (turns (length waiting.queue))).0.queue ≡ [])
    × ((uses waiting (turns (length waiting.queue))).1 ≡ map dispatch waiting.queue)
turns-map_example = turns-map waiting refl (omega arith)

-- The same with one connection, which is online.
abbrev busy : Container
busy = record waiting {
  mgr = record { first = some (new_connection 0 accepted).0; second = none } ∷ [];
}

first_vacant : (i : ℕ) → holder fresh i ≡ none
unfolding init_table
first_vacant zero = refl
first_vacant (suc zero) = refl
first_vacant (suc (suc i)) = refl

first-Ready : Ready 100 first_one.con
unfolding init_table
first-Ready = record {
  sending =
      subst (λ (b : SliceBuffer). IsBuffer b) (sym first_one.nothing_sent) empty_buffer-IsBuffer;
  receiving = subst (λ (b : SliceBuffer). IsBuffer b) (sym empty_first) empty_buffer-IsBuffer;
  room = omega (arith, ap (λ (b : SliceBuffer). length (contents b)) empty_first);
  check = byte_check;
  early = byte_check_early;
  handler = first_one.protocol;
}

Holds-vacant :
    (n i : ℕ) (o : Option Slot) → first_of o ≡ none → 1 ≤ i → Holds 1 n i (connection_of o)
Holds-vacant n i none e le = le
Holds-vacant n i (some s) e le = subst (λ (x : Option Connection). Holds 1 n i (some x)) (sym e) tt

holding-Healthy : Healthy 1 100 holding
holding-Healthy = record {
  kept = first_one.kept;
  slots = λ i. elim (Bool-cases (i == 0)) [
    | inl e ↦
        subst (λ (x : ℕ). Holds 1 100 x (connection_of (get_elem? holding.mgr x)))
          (sym (eq_of_== i 0 e))
          (subst (Holds 1 100 0)
            (sym (connection_of_holder (get_elem? holding.mgr 0) first_one.con holding_first))
            first-Ready)
    | inr ne ↦
        Holds-vacant 100 i (get_elem? holding.mgr i)
          (subst (λ (x : ℕ). (i == x) ≡ false → holder holding i ≡ holder fresh i)
              (attach_here_index fresh accepted start_time 0 (1 ∷ []) fresh-Inv fresh_free)
              (first_one.others i) ne
            ∙ first_vacant i)
          (ground (arith, ne))
  ];
}

abbrev readable_event : PollEvent
readable_event = record {
  ptr = build_connection_id holding.magic_number 8080 0;
  err = false;
  hup = false;
  rdhup = false;
  readable = true;
  writable = true;
  errno = 11;
  arriving = got (2 ∷ 5 ∷ 6 ∷ []) ∷ [];
  leaving = eager;
}

abbrev writable_event : PollEvent
writable_event = record readable_event { readable = false }

readable-IsEvent : IsEvent 1 readable_event
readable-IsEvent = record {
  known = omega (
    arith,
    check_connection_id-user holding readable_event.ptr 0 (
        check_connection_id-build holding 8080 0 first_one.kept (rw first_one.magic fresh_magic)
          (omega arith)
          (omega (
            arith,
            there holding 0 first_one.con
                (connection_of_holder (get_elem? holding.mgr 0) first_one.con holding_first),
            first_one.kept.bounded,
          ))),
  );
  reads = (omega arith, tt);
  honest = eager-Honest;
}

writable-IsEvent : IsEvent 1 writable_event
writable-IsEvent = record {
  known = readable-IsEvent.known;
  reads = readable-IsEvent.reads;
  honest = readable-IsEvent.honest;
}

do_work-Runs_example :
    Runs 1 94 (do_work true (start_time + 4000) (readable_event ∷ writable_event ∷ []) holding)
do_work-Runs_example =
    do_work-Runs true 1 94 (start_time + 4000) (readable_event ∷ writable_event ∷ []) holding
      (readable-IsEvent, (writable-IsEvent, tt)) holding-Healthy
