-- ===== src/MpscqExamples.antt =====
-- The theorems on the queue of many producers at concrete inputs.
use raptor_lite.Common.{ℕ, ◌≡◌, refl, false, none, some, List, [], ◌∷◌, ◌++◌, ◌==◌, arith, inl}
use raptor_lite.Mpscq.{
  stub, Queue, new_queue, exchange, link, Label, silent, entered, returned, consume, consume_at,
  loaded, past_stub, Step, enter, finish, by_consumer, Run, ended, stepped, pop_and_check_end,
}
use raptor_lite.Mpscq.Chain.{nodes}
use raptor_lite.Mpscq.Moves.{Inv, IsChained}
use raptor_lite.Mpscq.Fifo.{entries, exits, WellUsed, first_in_first_out, returned_is_free}
use raptor_lite.Mpscq.Waiting.{first_of, none_in, pop-nodes}

-- Two pushes, of which the second ends first; the consumer has gone past the stub.
abbrev two_pushed : Queue
two_pushed = link (link (exchange (exchange new_queue 7) 8) 7 8) stub 7

abbrev past : Queue
past = (consume two_pushed).0

abbrev two_labels : List Label
two_labels = entered 7 ∷ entered 8 ∷ silent ∷ silent ∷ silent ∷ []

to_past : Run new_queue two_labels past
unfolding consume consume_at past_stub
to_past = stepped (enter 7) (
    stepped (enter 8) (
      stepped (finish 7 8 refl refl)
        (stepped (finish stub 7 refl refl) (stepped by_consumer ended))))

two_labels-WellUsed : WellUsed [] two_labels
two_labels-WellUsed = (refl, tt, (refl, (refl, tt), tt))

first_in_first_out_example :
    (rest : List ℕ) × Inv past rest
    × (entries two_labels ≡ exits two_labels ++ nodes (past.oldest ∷ rest))
first_in_first_out_example = first_in_first_out two_labels past two_labels-WellUsed to_past

handing_out : Step past (returned 7) (consume past).0
unfolding consume consume_at past_stub loaded
handing_out = by_consumer

returned_is_free_example :
    ((consume past).0.linking 7 ≡ none)
    × ((7 == (consume past).0.newest) ≡ false)
    × ((7 == (consume past).0.oldest) ≡ false)
returned_is_free_example =
    returned_is_free two_labels past (consume past).0 7 two_labels-WellUsed to_past handing_out

-- One node behind the stub, with its push at its end.
abbrev one_pushed : Queue
one_pushed = link (exchange new_queue 7) stub 7

one_pushed_quiet : (n : ℕ) → one_pushed.linking n ≡ none
one_pushed_quiet n = ground arith

one_pushed-IsChained : IsChained one_pushed (7 ∷ [])
one_pushed-IsChained = record {
  chain = (inl (refl, refl), (refl, tt), (refl, refl, refl));
  free = λ n a. one_pushed_quiet n;
}

pop-nodes_example :
    (u : Queue) × (pop_and_check_end one_pushed
      ≡ some (u, first_of (nodes (stub ∷ 7 ∷ [])), none_in (nodes (stub ∷ 7 ∷ []))))
pop-nodes_example = pop-nodes one_pushed (7 ∷ []) one_pushed-IsChained refl one_pushed_quiet
