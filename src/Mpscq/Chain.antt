-- ===== src/Mpscq/Chain.antt =====
-- The chain of nodes from the oldest to the newest, of which each is linked to the one behind it, or
-- is about to be.
use raptor_lite.Common.{
  ℕ, ◌≡◌, refl, sym, ap, ◌∙◌, subst, true, false, Option, none, some, List, [], ◌∷◌, ◌++◌, ◌==◌,
  if◌then◌else◌, inl, inr, ◌⊎◌, Bool-cases, ==_self, eq_of_==, arith,
}
use raptor_lite.Mpscq.{stub, set}

abbrev pub Absent : ℕ → List ℕ → Type 0
Absent n [] = Unit {0}
Absent n (x ∷ xs) = ((n == x) ≡ false) × Absent n xs

-- `x` is linked to `y`, or a push of `y` is about to do it.
abbrev pub Joined : (next linking : ℕ → Option ℕ) → ℕ → ℕ → Type 0
Joined next linking x y =
    ((next x ≡ some y) × (linking x ≡ none)) ⊎ ((next x ≡ none) × (linking x ≡ some y))

abbrev pub Chain : (next linking : ℕ → Option ℕ) → ℕ → List ℕ → Type 0
Chain next linking newest [] = ⊥
Chain next linking newest (x ∷ []) = (x ≡ newest) × (next x ≡ none) × (linking x ≡ none)
Chain next linking newest (x ∷ y ∷ r) =
    Joined next linking x y × Absent x (y ∷ r) × Chain next linking newest (y ∷ r)

-- The nodes of a chain that are not the stub.
abbrev pub nodes : List ℕ → List ℕ
nodes [] = []
nodes (x ∷ xs) = if x == stub then nodes xs else x ∷ nodes xs

pub differ : (a b : ℕ) → (a == b) ≡ false → (b == a) ≡ false
differ a b h = ground arith

-- Where the stores agree, the chains do.
pub Chain-frame :
    (next linking next' linking' : ℕ → Option ℕ) (newest : ℕ) (xs : List ℕ) (k : ℕ)
    → ((n : ℕ) → (n == k) ≡ false → (next' n ≡ next n) × (linking' n ≡ linking n))
    → Absent k xs
    → Chain next linking newest xs
    → Chain next' linking' newest xs
Chain-frame next linking next' linking' newest [] k f a c = c
Chain-frame next linking next' linking' newest (x ∷ []) k f a c =
    let (same_next, same_linking) = f x (differ k x a.0) in
    (c.0, same_next ∙ c.1, same_linking ∙ c.2)
Chain-frame next linking next' linking' newest (x ∷ y ∷ r) k f a c =
    let (same_next, same_linking) = f x (differ k x a.0) in
    (
      rw (same_next, same_linking) c.0,
      c.1,
      Chain-frame next linking next' linking' newest (y ∷ r) k f a.1 c.2,
    )

-- The newest node is in the chain.
pub newest-Absent :
    (next linking : ℕ → Option ℕ) (newest k : ℕ) (xs : List ℕ)
    → Chain next linking newest xs
    → Absent k xs
    → (k == newest) ≡ false
newest-Absent next linking newest k [] c a = absurd c
newest-Absent next linking newest k (x ∷ []) c a = rw (sym c.0) a.0
newest-Absent next linking newest k (x ∷ y ∷ r) c a =
    newest-Absent next linking newest k (y ∷ r) c.2 a.1

pub newest_free :
    (next linking : ℕ → Option ℕ) (newest : ℕ) (xs : List ℕ)
    → Chain next linking newest xs
    → linking newest ≡ none
newest_free next linking newest [] c = absurd c
newest_free next linking newest (x ∷ []) c = ap linking (sym c.0) ∙ c.2
newest_free next linking newest (x ∷ y ∷ r) c = newest_free next linking newest (y ∷ r) c.2

pub set_other :
    (f : ℕ → Option ℕ) (k : ℕ) (v : Option ℕ) (n : ℕ) → (n == k) ≡ false → set f k v n ≡ f n
set_other f k v n h = rw h refl

pub set_same : (f : ℕ → Option ℕ) (k : ℕ) (v : Option ℕ) → set f k v k ≡ v
set_same f k v = rw (==_self k) refl

pub Absent-append :
    (k : ℕ) (ys : List ℕ) (n : ℕ) → Absent k ys → (k == n) ≡ false → Absent k (ys ++ n ∷ [])
Absent-append k [] n b h = (h, tt)
Absent-append k (z ∷ zs) n b h = (b.0, Absent-append k zs n b.1 h)

pub Absent-start : (k : ℕ) (ys : List ℕ) (n : ℕ) → Absent k (ys ++ n ∷ []) → Absent k ys
Absent-start k [] n b = tt
Absent-start k (z ∷ zs) n b = (b.0, Absent-start k zs n b.1)

-- A node with a link is not the last: the one that it is linked to is behind it.
pub advance :
    (next linking : ℕ → Option ℕ) (newest x o : ℕ) (rest : List ℕ)
    → Chain next linking newest (x ∷ rest)
    → next x ≡ some o
    → (r : List ℕ) × (rest ≡ o ∷ r)
      × (linking x ≡ none)
      × Absent x (o ∷ r)
      × Chain next linking newest (o ∷ r)
advance next linking newest x o [] c e = cc
advance next linking newest x o (y ∷ r) (inl j, a, c) e =
    let same : y ≡ o = cc in
    (
      r,
      ap (λ (z : ℕ). z ∷ r) same,
      j.1,
      subst (λ (z : ℕ). Absent x (z ∷ r)) same a,
      subst (λ (z : ℕ). Chain next linking newest (z ∷ r)) same c,
    )
advance next linking newest x o (y ∷ r) (inr j, a, c) e = cc

-- A node that is the newest is the last.
pub single :
    (next linking : ℕ → Option ℕ) (newest x : ℕ) (rest : List ℕ)
    → Chain next linking newest (x ∷ rest)
    → (x == newest) ≡ true
    → rest ≡ []
single next linking newest x [] c e = refl
single next linking newest x (y ∷ r) c e =
    let ne = newest-Absent next linking newest x (y ∷ r) c.2 c.1 in cc

pub nodes-append :
    (xs : List ℕ) (n : ℕ) → (n == stub) ≡ false → nodes (xs ++ n ∷ []) ≡ nodes xs ++ n ∷ []
nodes-append [] n h = rw h refl
nodes-append (x ∷ xs) n h = elim (Bool-cases (x == stub)) [
  | inl e ↦ rw e (nodes-append xs n h)
  | inr e ↦ rw e (ap (◌∷◌ x) (nodes-append xs n h))
]

pub nodes-stub : (xs : List ℕ) → nodes (xs ++ stub ∷ []) ≡ nodes xs
nodes-stub [] = refl
nodes-stub (x ∷ xs) = elim (Bool-cases (x == stub)) [
  | inl e ↦ rw e (nodes-stub xs)
  | inr e ↦ rw e (ap (◌∷◌ x) (nodes-stub xs))
]

-- The exchange of a node that is not in the chain puts it behind the newest.
pub exchange-Chain :
    (next linking : ℕ → Option ℕ) (newest node : ℕ) (xs : List ℕ)
    → linking node ≡ none
    → Absent node xs
    → Chain next linking newest xs
    → Chain (set next node none) (set linking newest (some node)) node (xs ++ node ∷ [])
exchange-Chain next linking newest node [] u a c = absurd c
exchange-Chain next linking newest node (x ∷ []) u a c = (
  inr (
    set_other next node none x (differ node x a.0) ∙ c.1,
    ap (set linking newest (some node)) c.0 ∙ set_same linking newest (some node),
  ),
  (differ node x a.0, tt),
  (refl, set_same next node none, set_other linking newest (some node) node (rw (sym c.0) a.0) ∙ u),
)
exchange-Chain next linking newest node (x ∷ y ∷ r) u a c =
    let same_next = set_other next node none x (differ node x a.0) in
    let same_linking =
      set_other linking newest (some node) x
        (newest-Absent next linking newest x (y ∷ r) c.2 c.1) in
    (
      rw (same_next, same_linking) c.0,
      Absent-append x (y ∷ r) node c.1 (differ node x a.0),
      exchange-Chain next linking newest node (y ∷ r) u a.1 c.2,
    )

-- The store of a node that is about to be linked leaves the chain as it is.
pub link-Chain :
    (next linking : ℕ → Option ℕ) (newest prev node : ℕ) (xs : List ℕ)
    → linking prev ≡ some node
    → Chain next linking newest xs
    → Chain (set next prev (some node)) (set linking prev none) newest xs
link-Chain next linking newest prev node [] l c = absurd c
link-Chain next linking newest prev node (x ∷ []) l c = elim (Bool-cases (x == prev)) [
  | inl e ↦ absurd (busy (ap linking (eq_of_== x prev e) ∙ l) c.2)
  | inr ne ↦
      (c.0, set_other next prev (some node) x ne ∙ c.1, set_other linking prev none x ne ∙ c.2)
]
  where
    busy : {o : Option ℕ} → o ≡ some node → o ≡ none → ⊥
    busy h k = cc
link-Chain next linking newest prev node (x ∷ y ∷ r) l c = elim (Bool-cases (x == prev)) [
  | inl e ↦
      let here : linking x ≡ some node = ap linking (eq_of_== x prev e) ∙ l in
      (
        inl (rw e (ap some (joined_to c.0 here)), rw e refl),
        c.1,
        Chain-frame next linking (set next prev (some node)) (set linking prev none) newest (y ∷ r)
            x
            (λ n h.
              let away : (n == prev) ≡ false = rw (sym (eq_of_== x prev e)) h in
              (set_other next prev (some node) n away, set_other linking prev none n away))
            c.1 c.2,
      )
  | inr ne ↦ (
    rw (set_other next prev (some node) x ne, set_other linking prev none x ne) c.0,
    c.1,
    link-Chain next linking newest prev node (y ∷ r) l c.2,
  )
]
  where
    joined_to : Joined next linking x y → linking x ≡ some node → node ≡ y
    joined_to (inl j) h = cc
    joined_to (inr j) h = cc
