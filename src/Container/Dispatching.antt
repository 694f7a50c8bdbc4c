-- ===== src/Container/Dispatching.antt =====
-- The order in which the message threads hand to the application's handlers what the service is told.
use raptor_lite.Common.{
  ℕ, ◌^◌, ◌<◌, ◌≡◌, refl, sym, ap, ◌∙◌, inl, inr, Bool, true, false, List, [], ◌∷◌, ◌++◌, map,
  append-nil, append_assoc, arith, length, if◌then◌else◌, ◌==◌, Bool-cases, is_some, length-append,
  zero, suc, subst,
}
use raptor_lite.Words.{u32}
use raptor_lite.Slice.{Slice}
use raptor_lite.Endpoint.{Endpoint}
use raptor_lite.Connection.{Event}
use raptor_lite.Container.{
  Container, Settings, Message, recv_a_message, close_event, heartbeat_event, endpoint_notify, post,
  on_notify, on_data, on_closed_event, on_timer_event,
}
use raptor_lite.Container.Messages.{
  HandlerCall, on_message, on_closed_call, on_heartbeat, on_notify_call, dispatch, next_message,
  message_round, thread_turn,
}

-- What the service is told, and the turns of the message threads.
pub data Use : Type 0 where
  notified : Endpoint → Use
  received : Endpoint → Slice → Use
  closed : Endpoint → Event → Use
  timed : Endpoint → Use
  turned : Use

abbrev use_one : Container → Use → Container × List HandlerCall
use_one c (notified ep) = (on_notify c ep, [])
use_one c (received ep s) = (on_data c ep s, [])
use_one c (closed ep ev) = (on_closed_event c ep ev, [])
use_one c (timed ep) = (on_timer_event c ep, [])
use_one c turned = thread_turn c

abbrev pub uses : Container → List Use → Container × List HandlerCall
uses c [] = (c, [])
uses c (u ∷ us) = ((uses (use_one c u).0 us).0, (use_one c u).1 ++ (uses (use_one c u).0 us).1)

-- The call that is due for each.
abbrev due : Settings → Use → List HandlerCall
due st (notified ep) = on_notify_call ep ∷ []
due st (received ep s) = on_message ep s ∷ []
due st (closed ep ev) = if st.closed_handler then on_closed_call ep ev ∷ [] else []
due st (timed ep) = if is_some st.heartbeat then on_heartbeat ep ∷ [] else []
due st turned = []

abbrev pub all_due : Settings → List Use → List HandlerCall
all_due st [] = []
all_due st (u ∷ us) = due st u ++ all_due st us

-- The counter of the queue, which has 32 bits.
abbrev pub CountsQueue : Container → Type 0
CountsQueue c = c.count ≡ u32 (length c.queue)

-- The calls `calls` and what is left in the queue of `d` are what was in the queue of `c` and `ms`.
pub record Dispatched (c d : Container) (calls ms : List HandlerCall) : Type 0 where
  pub counted : CountsQueue d
  pub in_order : calls ++ map dispatch d.queue ≡ map dispatch c.queue ++ ms
  pub same_settings : d.settings ≡ c.settings

map_snoc :
    (ms : List Message) (m : Message)
    → map dispatch (ms ++ m ∷ []) ≡ map dispatch ms ++ dispatch m ∷ []
map_snoc [] m = refl
map_snoc (x ∷ ms) m = ap (λ (cs : List HandlerCall). dispatch x ∷ cs) (map_snoc ms m)

stays : (c : Container) → CountsQueue c → Dispatched c c [] []
stays c v = record {
  counted = v;
  in_order = sym (append-nil (map dispatch c.queue));
  same_settings = refl;
}

post-Dispatched :
    (c : Container) (m : Message) → CountsQueue c → Dispatched c (post c m) [] (dispatch m ∷ [])
unfolding post
post-Dispatched c m v = record {
  counted = omega (arith, v, length-append c.queue (m ∷ []));
  in_order = map_snoc c.queue m;
  same_settings = refl;
}

if_posted :
    (c : Container) (m : Message) (t : Bool)
    → CountsQueue c
    → Dispatched c (if t then post c m else c) [] (if t then dispatch m ∷ [] else [])
if_posted c m true v = post-Dispatched c m v
if_posted c m false v = stays c v

next_message-Dispatched :
    (c : Container) (ms : List Message)
    → c.queue ≡ ms
    → CountsQueue c
    → Dispatched c (next_message c ms).0 (next_message c ms).1 []
unfolding next_message
next_message-Dispatched c [] e v = stays c v
next_message-Dispatched c (m ∷ ms) e v = record {
  counted = omega (arith, v, ap (λ (xs : List Message). length xs) e);
  in_order =
      sym (append-nil (map dispatch c.queue) ∙ ap (λ (xs : List Message). map dispatch xs) e);
  same_settings = refl;
}

thread_turn-Dispatched :
    (c : Container) → CountsQueue c → Dispatched c (thread_turn c).0 (thread_turn c).1 []
unfolding thread_turn message_round
thread_turn-Dispatched c v = elim (Bool-cases (c.count == 0)) [
  | inl e ↦ rw e (stays c v)
  | inr e ↦ rw e (next_message-Dispatched c c.queue refl v)
]

use_one-Dispatched :
    (c : Container) (u : Use)
    → CountsQueue c
    → Dispatched c (use_one c u).0 (use_one c u).1 (due c.settings u)
unfolding on_notify on_data on_closed_event on_timer_event
use_one-Dispatched c (notified ep) v = post-Dispatched c (endpoint_notify ep) v
use_one-Dispatched c (received ep s) v = post-Dispatched c (recv_a_message ep s) v
use_one-Dispatched c (closed ep ev) v = if_posted c (close_event ep ev) c.closed_handler v
use_one-Dispatched c (timed ep) v = if_posted c (heartbeat_event ep) (is_some c.heartbeat) v
use_one-Dispatched c turned v = thread_turn-Dispatched c v

joined :
    (c d e : Container) (xs ys ms ns : List HandlerCall)
    → Dispatched c d xs ms
    → Dispatched d e ys ns
    → Dispatched c e (xs ++ ys) (ms ++ ns)
joined c d e xs ys ms ns a b = record {
  counted = b.counted;
  in_order =
      append_assoc xs ys (map dispatch e.queue)
      ∙ ap (λ (zs : List HandlerCall). xs ++ zs) b.in_order
      ∙ sym (append_assoc xs (map dispatch d.queue) ns)
      ∙ ap (λ (zs : List HandlerCall). zs ++ ns) a.in_order
      ∙ append_assoc (map dispatch c.queue) ms ns;
  same_settings = b.same_settings ∙ a.same_settings;
}

-- In a container whose counter counts its queue, whatever the service is told and whenever the message
-- threads take their turns: the calls of the handlers, and then the messages that are left in the queue,
-- are the messages that were in the queue and then one for each thing that was told, in that order,
-- without the closed and the timed ones where there is no handler for them; and the counter still counts
-- the queue, modulo 2 ^ 32.
pub uses-Dispatched :
    (c : Container) (us : List Use)
    → CountsQueue c
    → Dispatched c (uses c us).0 (uses c us).1 (all_due c.settings us)
uses-Dispatched c [] v = stays c v
uses-Dispatched c (u ∷ us) v =
    let one = use_one-Dispatched c u v in
    let rest = uses-Dispatched (use_one c u).0 us one.counted in
    joined c (use_one c u).0 (uses (use_one c u).0 us).0 (use_one c u).1 (uses (use_one c u).0 us).1
      (due c.settings u) (all_due c.settings us) one
      (subst
        (λ (st : Settings).
          Dispatched (use_one c u).0 (uses (use_one c u).0 us).0 (uses (use_one c u).0 us).1
            (all_due st us))
        one.same_settings rest)

-- So many turns of the message threads.
abbrev pub turns : ℕ → List Use
turns zero = []
turns (suc n) = turned ∷ turns n

turns_due : (st : Settings) (n : ℕ) → all_due st (turns n) ≡ []
turns_due st zero = refl
turns_due st (suc n) = turns_due st n

turn_takes :
    (c : Container) (m : Message) (ms : List Message)
    → c.queue ≡ m ∷ ms
    → CountsQueue c
    → length c.queue < 2 ^ 32
    → (thread_turn c).0.queue ≡ ms
unfolding thread_turn message_round next_message
turn_takes c m ms e v room =
    let some_left : (c.count == 0) ≡ false =
      ground (arith, v, ap (λ (xs : List Message). length xs) e) in
    rw some_left (rw e refl)

turns_empty :
    (c : Container) (ms : List Message)
    → c.queue ≡ ms
    → CountsQueue c
    → length c.queue < 2 ^ 32
    → (uses c (turns (length ms))).0.queue ≡ []
turns_empty c [] e v room = e
turns_empty c (m ∷ ms) e v room =
    let next = turn_takes c m ms e v room in
    turns_empty (thread_turn c).0 ms next (thread_turn-Dispatched c v).counted (
      omega (
        arith,
        ap (λ (xs : List Message). length xs) e,
        ap (λ (xs : List Message). length xs) next,
      ))

-- If the counter of a container counts its queue, and the queue has fewer than 2 ^ 32 messages, as many
-- turns of the message threads as there are messages in the queue hand all of them to the handlers, in
-- the order of the queue, and leave it empty.
pub turns-map :
    (c : Container)
    → CountsQueue c
    → length c.queue < 2 ^ 32
    → ((uses c (turns (length c.queue))).0.queue ≡ [])
      × ((uses c (turns (length c.queue))).1 ≡ map dispatch c.queue)
turns-map c v room =
    let all = uses-Dispatched c (turns (length c.queue)) v in
    let empty = turns_empty c c.queue refl v room in
    (
      empty,
      sym (append-nil (uses c (turns (length c.queue))).1)
          ∙ ap (λ (xs : List Message). (uses c (turns (length c.queue))).1 ++ map dispatch xs)
              (sym empty)
          ∙ all.in_order
          ∙ ap (λ (xs : List HandlerCall). map dispatch c.queue ++ xs)
              (turns_due c.settings (length c.queue))
          ∙ append-nil (map dispatch c.queue),
    )
