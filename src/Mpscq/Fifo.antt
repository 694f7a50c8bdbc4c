-- ===== src/Mpscq/Fifo.antt =====
-- The queue from outside: nodes leave in the order in which they enter.
use raptor_lite.Common.{
  ℕ, ◌≡◌, refl, sym, ap, ◌∙◌, subst, false, none, List, [], ◌∷◌, ◌++◌, ◌==◌, inl, inr, Bool-cases,
  arith, drop, append-nil, append_assoc,
}
use raptor_lite.Mpscq.{
  stub, Queue, new_queue, Label, silent, entered, returned, gave_up, Step, Run, ended, stepped,
}
use raptor_lite.Mpscq.Chain.{Absent, nodes, newest-Absent}
use raptor_lite.Mpscq.Moves.{Inv, Outcome, Allowed, Step-Inv}

-- The nodes that a run of labels shows to enter, and those that `pop` returns in it.
abbrev pub entries : List Label → List ℕ
entries [] = []
entries (silent ∷ ls) = entries ls
entries (entered n ∷ ls) = n ∷ entries ls
entries (returned n ∷ ls) = entries ls
entries (gave_up empty ∷ ls) = entries ls

abbrev pub exits : List Label → List ℕ
exits [] = []
exits (silent ∷ ls) = exits ls
exits (entered n ∷ ls) = exits ls
exits (returned n ∷ ls) = n ∷ exits ls
exits (gave_up empty ∷ ls) = exits ls

-- No push of the stub, or of a node that is still held.
abbrev pub WellUsed : (held : List ℕ) → List Label → Type 0
WellUsed held [] = Unit {0}
WellUsed held (silent ∷ ls) = WellUsed held ls
WellUsed held (entered n ∷ ls) =
    ((n == stub) ≡ false) × Absent n held × WellUsed (held ++ n ∷ []) ls
WellUsed held (returned n ∷ ls) = WellUsed (drop 1 held) ls
WellUsed held (gave_up empty ∷ ls) = WellUsed held ls

Absent-nodes : (n : ℕ) (xs : List ℕ) → (n == stub) ≡ false → Absent n (nodes xs) → Absent n xs
Absent-nodes n [] h a = tt
Absent-nodes n (x ∷ xs) h a = elim (Bool-cases (x == stub)) [
  | inl e ↦ (ground (arith, e, h), Absent-nodes n xs h (rw e at a))
  | inr e ↦ let b : Absent n (x ∷ nodes xs) = rw e at a in (b.0, Absent-nodes n xs h b.1)
]

allowed : (l : Label) (ls : List Label) (xs : List ℕ) → WellUsed (nodes xs) (l ∷ ls) → Allowed l xs
allowed silent ls xs w = tt
allowed (entered n) ls xs w = (w.0, Absent-nodes n xs w.0 w.1)
allowed (returned n) ls xs w = tt
allowed (gave_up empty) ls xs w = tt

WellUsed-rest :
    (l : Label) (ls : List Label) (xs ys : List ℕ)
    → WellUsed (nodes xs) (l ∷ ls)
    → Outcome l xs ys
    → WellUsed (nodes ys) ls
WellUsed-rest silent ls xs ys w o = rw o w
WellUsed-rest (entered n) ls xs ys w o = rw o w.2
WellUsed-rest (returned n) ls xs ys w o = subst (λ (zs : List ℕ). WellUsed (drop 1 zs) ls) o.0 w
WellUsed-rest (gave_up empty) ls xs ys w o = rw o w

before_step :
    (l : Label) (ls : List Label) (xs ys zs : List ℕ)
    → Outcome l xs ys
    → nodes ys ++ entries ls ≡ exits ls ++ nodes zs
    → nodes xs ++ entries (l ∷ ls) ≡ exits (l ∷ ls) ++ nodes zs
before_step silent ls xs ys zs o e = rw (sym o) e
before_step (entered n) ls xs ys zs o e =
    sym (append_assoc (nodes xs) (n ∷ []) (entries ls))
    ∙ ap (λ (us : List ℕ). us ++ entries ls) (sym o)
    ∙ e
before_step (returned n) ls xs ys zs o e = rw o.0 (ap (◌∷◌ n) e)
before_step (gave_up empty) ls xs ys zs o e = rw (sym o) e

Run-Inv :
    {s t : Queue} {ls : List Label} (rest : List ℕ)
    → Inv s rest
    → WellUsed (nodes (s.oldest ∷ rest)) ls
    → Run s ls t
    → (rest' : List ℕ) × Inv t rest'
      × (nodes (s.oldest ∷ rest) ++ entries ls ≡ exits ls ++ nodes (t.oldest ∷ rest'))
Run-Inv {s} rest i w ended = (rest, i, append-nil (nodes (s.oldest ∷ rest)))
Run-Inv {s} {t} rest i w (stepped {t = m} {l = l} {ls = ls} step run) =
    let (rest', j, o) = Step-Inv rest i (allowed l ls (s.oldest ∷ rest) w) step in
    let (rest'', k, e) =
      Run-Inv rest' j (WellUsed-rest l ls (s.oldest ∷ rest) (m.oldest ∷ rest') w o) run in
    (rest'', k, before_step l ls (s.oldest ∷ rest) (m.oldest ∷ rest') (t.oldest ∷ rest'') o e)

new_queue-Inv : Inv new_queue []
new_queue-Inv = record {
  chained = record { chain = (refl, refl, refl); free = λ n a. refl };
  known = tt;
}

-- Whatever the order of the steps of the producers and the consumer: the nodes that have entered a
-- new queue are those that `pop` has returned, in the order of entry and each once, followed by those
-- of the chain from the oldest node; if no node is pushed that the queue still holds.
pub first_in_first_out :
    (ls : List Label) (t : Queue)
    → WellUsed [] ls
    → Run new_queue ls t
    → (rest : List ℕ) × Inv t rest × (entries ls ≡ exits ls ++ nodes (t.oldest ∷ rest))
first_in_first_out ls t w run = Run-Inv [] new_queue-Inv w run

-- A node that `pop` returns, in a run of a new queue in which no node is pushed that the queue still
-- holds, is no longer touched: it is neither the newest nor the oldest, and no push that is on its way
-- stores to it.
pub returned_is_free :
    (ls : List Label) (t u : Queue) (n : ℕ)
    → WellUsed [] ls
    → Run new_queue ls t
    → Step t (returned n) u
    → (u.linking n ≡ none) × ((n == u.newest) ≡ false) × ((n == u.oldest) ≡ false)
returned_is_free ls t u n w run step =
    let (rest, i, e) = first_in_first_out ls t w run in
    let (rest', j, o) = Step-Inv rest i tt step in
    (
      j.chained.free n o.1,
      newest-Absent u.next u.linking u.newest n (u.oldest ∷ rest') j.chained.chain o.1,
      o.1.0,
    )
