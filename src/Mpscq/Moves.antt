-- ===== src/Mpscq/Moves.antt =====
-- What each step does to the chain, and to the nodes that it holds.
use raptor_lite.Common.{
  ℕ, ◌≡◌, refl, sym, ap, ◌∙◌, subst, true, false, Option, none, some, List, [], ◌∷◌, ◌++◌, ◌==◌,
  inl, inr, Bool-cases, eq_of_==, arith,
}
use raptor_lite.Mpscq.{
  stub, Pc, idle, second, newest_load, reset, relink, last, Queue, set, exchange, link, Label,
  silent, entered, returned, gave_up, at_pc, hand_out, loaded, past_stub, last_loaded, consume_at,
  consume, Step, enter, finish, by_consumer,
}
use raptor_lite.Mpscq.Chain.{
  Absent, Chain, nodes, differ, newest-Absent, newest_free, set_same, set_other, exchange-Chain,
  link-Chain, Absent-append, Absent-start, advance, single, nodes-append, nodes-stub,
}

-- The chain of a queue starts at the oldest node, and only a node of it is about to be linked.
pub record IsChained (s : Queue) (rest : List ℕ) : Type 0 where
  pub chain : Chain s.next s.linking s.newest (s.oldest ∷ rest)
  pub free : (n : ℕ) → Absent n (s.oldest ∷ rest) → s.linking n ≡ none

-- What the consumer knows where it is.
abbrev pub Knows : (linking : ℕ → Option ℕ) → ℕ → List ℕ → Pc → Type 0
Knows linking oldest rest idle = Unit {0}
Knows linking oldest rest (second t) = (t ≡ oldest) × ((t == stub) ≡ false)
Knows linking oldest rest (newest_load t) = (t ≡ oldest) × ((t == stub) ≡ false)
Knows linking oldest rest (reset t) =
    (t ≡ oldest) × ((t == stub) ≡ false) × Absent stub (oldest ∷ rest)
Knows linking oldest rest (relink t p) =
    (t ≡ oldest) × ((t == stub) ≡ false) × (linking p ≡ some stub)
Knows linking oldest rest (last t) = (t ≡ oldest) × ((t == stub) ≡ false)

pub record Inv (s : Queue) (rest : List ℕ) : Type 0 where
  pub chained : IsChained s rest
  pub known : Knows s.linking s.oldest rest s.pc

-- What a label says of the nodes before and after.
abbrev pub Outcome : Label → List ℕ → List ℕ → Type 0
Outcome silent xs ys = nodes ys ≡ nodes xs
Outcome (entered n) xs ys = nodes ys ≡ nodes xs ++ n ∷ []
Outcome (returned n) xs ys = (nodes xs ≡ n ∷ nodes ys) × Absent n ys
Outcome (gave_up empty) xs ys = nodes ys ≡ nodes xs

-- What came of a step from `s`.
abbrev pub Moved : Queue → List ℕ → Queue × Label → Type 0
Moved s rest r =
    (rest' : List ℕ) × Inv r.0 rest' × Outcome r.1 (s.oldest ∷ rest) (r.0.oldest ∷ rest')

-- The oldest node goes, and the one behind it is the oldest.
pub advance-IsChained :
    (s : Queue) (rest : List ℕ) (o : ℕ) (p : Pc)
    → IsChained s rest
    → s.next s.oldest ≡ some o
    → (r : List ℕ) × (rest ≡ o ∷ r)
      × Absent s.oldest (o ∷ r)
      × IsChained (record s { oldest = o; pc = p }) r
advance-IsChained s rest o p i e =
    let (r, same, unlinked, away, chain) =
      advance s.next s.linking s.newest s.oldest o rest i.chain e in
    (
      r,
      same,
      away,
      record {
        chain = chain;
        free = λ n a. elim (Bool-cases (n == s.oldest)) [
          | inl at ↦ ap s.linking (eq_of_== n s.oldest at) ∙ unlinked
          | inr ne ↦ i.free n (ne, subst (Absent n) (sym same) a)
        ];
      },
    )

hand_out-Moved :
    (s : Queue) (rest : List ℕ) (t o : ℕ)
    → IsChained s rest
    → t ≡ s.oldest
    → (t == stub) ≡ false
    → s.next t ≡ some o
    → Moved s rest (hand_out s t o)
hand_out-Moved s rest t o i te ne e =
    let (r, same, away, chained) = advance-IsChained s rest o idle i (ap s.next (sym te) ∙ e) in
    let real : (s.oldest == stub) ≡ false = ap (λ (x : ℕ). x == stub) (sym te) ∙ ne in
    (
      r,
      record { chained = chained; known = tt },
      (
        first_real s.oldest t rest (o ∷ r) real (sym te) same,
        subst (λ (x : ℕ). Absent x (o ∷ r)) (sym te) away,
      ),
    )
  where
    first_real :
        (x y : ℕ) (xs ys : List ℕ)
        → (x == stub) ≡ false
        → x ≡ y
        → xs ≡ ys
        → nodes (x ∷ xs) ≡ y ∷ nodes ys
    first_real x y xs ys h f g = rw (h, f, g) refl

stay :
    (s : Queue) (rest : List ℕ) (p : Pc)
    → IsChained s rest
    → Knows s.linking s.oldest rest p
    → Inv (at_pc s p) rest
stay s rest p i k = record { chained = record { chain = i.chain; free = i.free }; known = k }

loaded-Moved :
    (s : Queue) (rest : List ℕ) (t : ℕ) (o : Option ℕ)
    → IsChained s rest
    → t ≡ s.oldest
    → (t == stub) ≡ false
    → s.next t ≡ o
    → Moved s rest (loaded s t o)
unfolding loaded
loaded-Moved s rest t none i te ne e = (rest, stay s rest (newest_load t) i (te, ne), refl)
loaded-Moved s rest t (some o) i te ne e = hand_out-Moved s rest t o i te ne e

last_loaded-Moved :
    (s : Queue) (rest : List ℕ) (t : ℕ) (o : Option ℕ)
    → IsChained s rest
    → t ≡ s.oldest
    → (t == stub) ≡ false
    → s.next t ≡ o
    → Moved s rest (last_loaded s t o)
unfolding last_loaded
last_loaded-Moved s rest t none i te ne e = (rest, stay s rest idle i tt, refl)
last_loaded-Moved s rest t (some o) i te ne e = hand_out-Moved s rest t o i te ne e

past_stub-Moved :
    (s : Queue) (rest : List ℕ) (o : Option ℕ)
    → IsChained s rest
    → (s.oldest == stub) ≡ true
    → s.next s.oldest ≡ o
    → Moved s rest (past_stub s o)
unfolding past_stub
past_stub-Moved s rest none i st e = (rest, stay s rest idle i tt, refl)
past_stub-Moved s rest (some o) i st e =
    let (r, same, away, chained) = advance-IsChained s rest o (second o) i e in
    let real : (o == stub) ≡ false =
      differ stub o (ap (λ (x : ℕ). x == o) (sym (eq_of_== s.oldest stub st)) ∙ away.0) in
    (r, record { chained = chained; known = (refl, real) }, dropped s.oldest rest (o ∷ r) st same)
  where
    dropped : (x : ℕ) (xs ys : List ℕ) → (x == stub) ≡ true → xs ≡ ys → nodes ys ≡ nodes (x ∷ xs)
    dropped x xs ys h g = rw (h, g) refl

-- A node that is not in the chain goes to its end.
exchange-IsChained :
    (s : Queue) (rest : List ℕ) (n : ℕ) (p : Pc)
    → IsChained s rest
    → Absent n (s.oldest ∷ rest)
    → IsChained (at_pc (exchange s n) p) (rest ++ n ∷ [])
exchange-IsChained s rest n p i a = record {
  chain = exchange-Chain s.next s.linking s.newest n (s.oldest ∷ rest) (i.free n a) a i.chain;
  free = λ k b.
      let c : Absent k (s.oldest ∷ rest) = (b.0, Absent-start k rest n b.1) in
      set_other s.linking s.newest (some n) k
        (newest-Absent s.next s.linking s.newest k (s.oldest ∷ rest) i.chain c)
      ∙ i.free k c;
}

link-IsChained :
    (s : Queue) (rest : List ℕ) (prev n : ℕ) (p : Pc)
    → IsChained s rest
    → s.linking prev ≡ some n
    → IsChained (at_pc (link s prev n) p) rest
link-IsChained s rest prev n p i l = record {
  chain = link-Chain s.next s.linking s.newest prev n (s.oldest ∷ rest) l i.chain;
  free = λ k a. elim (Bool-cases (k == prev)) [
    | inl e ↦ rw e refl
    | inr ne ↦ set_other s.linking prev none k ne ∙ i.free k a
  ];
}

exchange-Knows :
    (linking : ℕ → Option ℕ) (oldest newest n : ℕ) (rest : List ℕ) (p : Pc)
    → linking newest ≡ none
    → (n == stub) ≡ false
    → Knows linking oldest rest p
    → Knows (set linking newest (some n)) oldest (rest ++ n ∷ []) p
exchange-Knows linking oldest newest n rest idle f ne k = tt
exchange-Knows linking oldest newest n rest (second t) f ne k = k
exchange-Knows linking oldest newest n rest (newest_load t) f ne k = k
exchange-Knows linking oldest newest n rest (reset t) f ne k =
    (k.0, k.1, (k.2.0, Absent-append stub rest n k.2.1 (differ n stub ne)))
exchange-Knows linking oldest newest n rest (relink t p) f ne k = elim (Bool-cases (p == newest)) [
  | inl e ↦ absurd (both (linking p) k.2 (ap linking (eq_of_== p newest e) ∙ f))
  | inr d ↦ (k.0, k.1, set_other linking newest (some n) p d ∙ k.2)
]
  where
    both : (o : Option ℕ) → o ≡ some stub → o ≡ none → ⊥
    both o g h = cc
exchange-Knows linking oldest newest n rest (last t) f ne k = k

link-Knows :
    (linking : ℕ → Option ℕ) (oldest prev n : ℕ) (rest : List ℕ) (p : Pc)
    → linking prev ≡ some n
    → (n == stub) ≡ false
    → Knows linking oldest rest p
    → Knows (set linking prev none) oldest rest p
link-Knows linking oldest prev n rest idle l ne k = tt
link-Knows linking oldest prev n rest (second t) l ne k = k
link-Knows linking oldest prev n rest (newest_load t) l ne k = k
link-Knows linking oldest prev n rest (reset t) l ne k = k
link-Knows linking oldest prev n rest (relink t p) l ne k = elim (Bool-cases (p == prev)) [
  | inl e ↦ absurd (both n (linking p) ne k.2 (ap linking (eq_of_== p prev e) ∙ l))
  | inr d ↦ (k.0, k.1, set_other linking prev none p d ∙ k.2)
]
  where
    both : (m : ℕ) (o : Option ℕ) → (m == stub) ≡ false → o ≡ some stub → o ≡ some m → ⊥
    both m o d g h = grind (arith, d, g, h)
link-Knows linking oldest prev n rest (last t) l ne k = k

consume_at-Moved :
    (s : Queue) (rest : List ℕ) (p : Pc)
    → IsChained s rest
    → Knows s.linking s.oldest rest p
    → Moved s rest (consume_at s p)
unfolding consume_at
consume_at-Moved s rest idle i k = elim (Bool-cases (s.oldest == stub)) [
  | inl e ↦ rw e (past_stub-Moved s rest (s.next s.oldest) i e refl)
  | inr e ↦ rw e (loaded-Moved s rest s.oldest (s.next s.oldest) i refl e refl)
]
consume_at-Moved s rest (second t) i k = loaded-Moved s rest t (s.next t) i k.0 k.1 refl
consume_at-Moved s rest (newest_load t) i k = elim (Bool-cases (t == s.newest)) [
  | inl e ↦ rw e (
      let alone : rest ≡ [] =
        single s.next s.linking s.newest s.oldest rest i.chain
          (ap (λ (x : ℕ). x == s.newest) (sym k.0) ∙ e) in
      (
        rest,
        stay s rest (reset t) i (
          k.0,
          k.1,
          (
            differ s.oldest stub (ap (λ (x : ℕ). x == stub) (sym k.0) ∙ k.1),
            subst (Absent stub) (sym alone) tt,
          ),
        ),
        refl,
      ))
  | inr e ↦ rw e (rest, stay s rest idle i tt, refl)
]
consume_at-Moved s rest (reset t) i k = (
  rest ++ stub ∷ [],
  record {
    chained = exchange-IsChained s rest stub (relink t s.newest) i k.2;
    known = (k.0, k.1, set_same s.linking s.newest (some stub));
  },
  nodes-stub (s.oldest ∷ rest),
)
consume_at-Moved s rest (relink t p) i k = (
  rest,
  record { chained = link-IsChained s rest p stub (last t) i k.2; known = (k.0, k.1) },
  refl,
)
consume_at-Moved s rest (last t) i k = last_loaded-Moved s rest t (s.next t) i k.0 k.1 refl

-- A producer pushes a node that is not in the queue, and not the stub.
abbrev pub Allowed : Label → List ℕ → Type 0
Allowed (entered n) xs = ((n == stub) ≡ false) × Absent n xs
Allowed silent xs = Unit {0}
Allowed (returned n) xs = Unit {0}
Allowed (gave_up empty) xs = Unit {0}

-- Each step of any thread keeps the invariant, and does to the nodes what it shows.
pub Step-Inv :
    {s t : Queue} {l : Label} (rest : List ℕ)
    → Inv s rest
    → Allowed l (s.oldest ∷ rest)
    → Step s l t
    → Moved s rest (t, l)
unfolding consume
Step-Inv {s} rest i a (enter n) = (
  rest ++ n ∷ [],
  record {
    chained = exchange-IsChained s rest n s.pc i.chained a.1;
    known =
        exchange-Knows s.linking s.oldest s.newest n rest s.pc
          (newest_free s.next s.linking s.newest (s.oldest ∷ rest) i.chained.chain) a.0 i.known;
  },
  nodes-append (s.oldest ∷ rest) n a.0,
)
Step-Inv {s} rest i a (finish prev n l ne) = (
  rest,
  record {
    chained = link-IsChained s rest prev n s.pc i.chained l;
    known = link-Knows s.linking s.oldest prev n rest s.pc l ne i.known;
  },
  refl,
)
Step-Inv {s} rest i a by_consumer = consume_at-Moved s rest s.pc i.chained i.known
