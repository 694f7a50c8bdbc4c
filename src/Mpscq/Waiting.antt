-- ===== src/Mpscq/Waiting.antt =====
-- How long a `pop` takes, and what it returns when no push is on its way.
use raptor_lite.Common.{
  ℕ, suc, ◌≤◌, ◌≡◌, refl, sym, ap, ◌∙◌, Bool, true, false, Option, none, some, List, [], ◌∷◌, ◌==◌,
  inl, inr, Bool-cases, ==_self, eq_of_==,
}
use raptor_lite.Mpscq.{
  stub, Pc, idle, second, newest_load, reset, relink, last, Queue, Label, silent, entered, returned,
  gave_up, loaded, past_stub, last_loaded, consume_at, consume, enter, finish, by_consumer, Run,
  ended, stepped, at_pc, exchange, link, pop_from, pop_within, pop_and_check_end,
}
use raptor_lite.Mpscq.Chain.{Chain, nodes, differ}
use raptor_lite.Mpscq.Moves.{IsChained, advance-IsChained}

-- The calls of `pop` that have returned.
abbrev pub answers : List Label → ℕ
answers [] = 0
answers (silent ∷ ls) = answers ls
answers (entered n ∷ ls) = answers ls
answers (returned n ∷ ls) = suc (answers ls)
answers (gave_up empty ∷ ls) = suc (answers ls)

-- The steps of the consumer in a run.
unfoldable pub own_steps : {s t : Queue} {ls : List Label} → Run s ls t → ℕ
own_steps ended = 0
own_steps (stepped (enter n) run) = own_steps run
own_steps (stepped (finish prev n l ne) run) = own_steps run
own_steps (stepped by_consumer run) = suc (own_steps run)

-- The steps that a call of `pop` has left at most.
abbrev pub steps_left : Pc → ℕ
steps_left idle = 6
steps_left (second t) = 5
steps_left (newest_load t) = 4
steps_left (reset t) = 3
steps_left (relink t p) = 2
steps_left (last t) = 1

-- A step takes one of them, or ends the call.
abbrev Counted : ℕ → Queue × Label → Type 0
Counted n (s, silent) = suc (steps_left s.pc) ≤ n
Counted n (s, entered k) = ⊥
Counted n (s, returned k) = s.pc ≡ idle
Counted n (s, gave_up empty) = s.pc ≡ idle

abbrev pub first_of : List ℕ → Option ℕ
first_of [] = none
first_of (n ∷ ns) = some n

abbrev pub none_in : List ℕ → Bool
none_in [] = true
none_in (n ∷ ns) = false

-- With no push on its way, a node without a link is the newest.
quiet_last :
    (next linking : ℕ → Option ℕ) (newest x : ℕ) (rest : List ℕ)
    → Chain next linking newest (x ∷ rest)
    → linking x ≡ none
    → next x ≡ none
    → (rest ≡ []) × ((x == newest) ≡ true)
quiet_last next linking newest x [] c l e = (refl, rw c.0 (==_self newest))
quiet_last next linking newest x (y ∷ r) (inl j, a, c) l e = cc
quiet_last next linking newest x (y ∷ r) (inr j, a, c) l e = cc

-- What is left when the last node has been returned: the stub.
abbrev emptied : Queue → Queue
emptied s = record (link (exchange s stub) s.newest stub) { oldest = stub; pc = idle }

loaded_pops :
    (k : ℕ) (s : Queue) (t : ℕ) (rest : List ℕ) (o : Option ℕ)
    → IsChained s rest
    → t ≡ s.oldest
    → s.linking s.oldest ≡ none
    → s.next t ≡ o
    → (u : Queue) × (pop_within (suc (suc (suc (suc (suc k))))) (loaded s t o)
        ≡ some (u, some t, false))
unfolding pop_within pop_from loaded consume consume_at last_loaded
loaded_pops k s t rest (some o) i te l e = (record s { oldest = o; pc = idle }, refl)
loaded_pops k s t rest none i te l e =
    let (alone, newest) =
      quiet_last s.next s.linking s.newest s.oldest rest i.chain l (ap s.next (sym te) ∙ e) in
    let here : (t == s.newest) ≡ true = ap (λ (x : ℕ). x == s.newest) te ∙ newest in
    (emptied s, rw (here, here) refl)

from_stub :
    (s : Queue) (rest : List ℕ) (o : Option ℕ)
    → IsChained s rest
    → ((n : ℕ) → s.linking n ≡ none)
    → (s.oldest == stub) ≡ true
    → s.next s.oldest ≡ o
    → (u : Queue) × (pop_within 6 (past_stub s o)
        ≡ some (u, first_of (nodes (s.oldest ∷ rest)), none_in (nodes (s.oldest ∷ rest))))
unfolding pop_within pop_from past_stub consume consume_at
from_stub s rest none i q st e =
    let (alone, newest) =
      quiet_last s.next s.linking s.newest s.oldest rest i.chain (q s.oldest) e in
    (at_pc s idle, rw (st, alone) refl)
from_stub s rest (some o) i q st e =
    let (r, same, away, chained) = advance-IsChained s rest o (second o) i e in
    let real : (o == stub) ≡ false =
      differ stub o (ap (λ (x : ℕ). x == o) (sym (eq_of_== s.oldest stub st)) ∙ away.0) in
    let (u, f) =
      loaded_pops 0 (record s { oldest = o; pc = second o }) o r (s.next o) chained refl (q o)
        refl in
    (u, rw (st, same, real) f)

from_idle :
    (s : Queue) (rest : List ℕ)
    → IsChained s rest
    → ((n : ℕ) → s.linking n ≡ none)
    → (u : Queue) × (pop_within 6 (consume_at s idle)
        ≡ some (u, first_of (nodes (s.oldest ∷ rest)), none_in (nodes (s.oldest ∷ rest))))
unfolding consume_at
from_idle s rest i q = elim (Bool-cases (s.oldest == stub)) [
  | inl st ↦
      let (u, f) = from_stub s rest (s.next s.oldest) i q st refl in
      (u, ap (λ (r : Queue × Label). pop_within 6 r) (first_step st) ∙ f)
  | inr ne ↦
      let (u, f) = loaded_pops 1 s s.oldest rest (s.next s.oldest) i refl (q s.oldest) refl in
      (u, rw ne f)
]
  where
    first_step : (s.oldest == stub) ≡ true → consume_at s idle ≡ past_stub s (s.next s.oldest)
    first_step st = rw st refl

-- A call of `pop` that meets no push on its way, in a chain, returns the first node and says that the
-- queue is not empty; or if there is none, null and that it is.
pub pop-nodes :
    (s : Queue) (rest : List ℕ)
    → IsChained s rest
    → s.pc ≡ idle
    → ((n : ℕ) → s.linking n ≡ none)
    → (u : Queue) × (pop_and_check_end s
        ≡ some (u, first_of (nodes (s.oldest ∷ rest)), none_in (nodes (s.oldest ∷ rest))))
unfolding pop_and_check_end consume
pop-nodes s rest i p q =
    let (u, e) = from_idle s rest i q in (u, ap (λ (c : Pc). pop_within 6 (consume_at s c)) p ∙ e)
