-- ===== src/ListEntry/Ring.antt =====
-- The entries of a list as a ring: what each operation makes of the list of its entries.
use raptor_lite.Common.{
  ℕ, ◌+◌, ◌≤◌, ◌≡◌, refl, sym, ◌∙◌, subst, List, [], ◌∷◌, ◌++◌, ◌==◌, ==_self, inl, inr, Bool-cases,
  one, times, one_self, one_apart, one_sym, times-append, apart_new, arith, append-nil,
}
use raptor_lite.ListEntry.{Store, set_next, set_prev, list_init, list_push_front, list_push_back}

-- From `a` the links lead through `xs` to `b`, and back.
abbrev pub Chain : Store → ℕ → List ℕ → ℕ → Type 0
Chain s a [] b = (s.next a ≡ b) × (s.prev b ≡ a)
Chain s a (x ∷ xs) b = (s.next a ≡ x) × (s.prev x ≡ a) × Chain s x xs b

-- The entries `xs` behind `head`, in order, which are no two the same.
pub record IsRing (s : Store) (head : ℕ) (xs : List ℕ) : Type 0 where
  pub apart : (n : ℕ) → times n (head ∷ xs) ≤ 1
  pub links : Chain s head xs head

-- `entry->next = to; to->prev = entry;`
abbrev pub link : Store → ℕ → ℕ → Store
link s entry to = set_prev (set_next s entry to) to entry

abbrev pub last_of : ℕ → List ℕ → ℕ
last_of a [] = a
last_of a (x ∷ xs) = last_of x xs

link_next : (s : Store) (p q a : ℕ) → one a p ≡ 0 → (link s p q).next a ≡ s.next a
link_next s p q a h = rw (one_apart a p h) refl

link_prev : (s : Store) (p q a : ℕ) → one a q ≡ 0 → (link s p q).prev a ≡ s.prev a
link_prev s p q a h = rw (one_apart a q h) refl

linked : (s : Store) (p q : ℕ) → Chain (link s p q) p [] q
linked s p q = (rw (==_self p) refl, rw (==_self q) refl)

-- A new link elsewhere does not touch a chain.
link-Chain :
    (s : Store) (p q a : ℕ) (xs : List ℕ) (b : ℕ)
    → times p (a ∷ xs) ≡ 0
    → times q xs + one q b ≡ 0
    → Chain s a xs b
    → Chain (link s p q) a xs b
link-Chain s p q a [] b h k (n, m) = (
  link_next s p q a (omega (arith, h, one_sym a p)) ∙ n,
  link_prev s p q b (omega (arith, k, one_sym b q)) ∙ m,
)
link-Chain s p q a (x ∷ xs) b h k (n, m, c) = (
  link_next s p q a (omega (arith, h, one_sym a p)) ∙ n,
  link_prev s p q x (omega (arith, k, one_sym x q)) ∙ m,
  link-Chain s p q x xs b (omega (arith, h)) (omega (arith, k)) c,
)

Chain-append :
    (s : Store) (a : ℕ) (xs : List ℕ) (y : ℕ) (ys : List ℕ) (b : ℕ)
    → Chain s a xs y
    → Chain s y ys b
    → Chain s a (xs ++ y ∷ ys) b
Chain-append s a [] y ys b (n, m) d = (n, m, d)
Chain-append s a (x ∷ xs) y ys b (n, m, c) d = (n, m, Chain-append s x xs y ys b c d)

pub Chain-split :
    (s : Store) (a : ℕ) (xs : List ℕ) (y : ℕ) (ys : List ℕ) (b : ℕ)
    → Chain s a (xs ++ y ∷ ys) b
    → Chain s a xs y × Chain s y ys b
Chain-split s a [] y ys b (n, m, c) = ((n, m), c)
Chain-split s a (x ∷ xs) y ys b (n, m, c) =
    let (d, e) = Chain-split s x xs y ys b c in ((n, m, d), e)

-- The last entry is behind the end.
pub Chain-last :
    (s : Store) (a : ℕ) (xs : List ℕ) (b : ℕ) → Chain s a xs b → s.prev b ≡ last_of a xs
Chain-last s a [] b (n, m) = m
Chain-last s a (x ∷ xs) b (n, m, c) = Chain-last s x xs b c

times_last : (a : ℕ) (xs : List ℕ) → 1 ≤ times (last_of a xs) (a ∷ xs)
times_last a [] = omega (arith, one_self a)
times_last a (x ∷ xs) = omega (arith, times_last x xs)

-- The end of a chain is led elsewhere.
relinked_end :
    (s : Store) (a : ℕ) (xs : List ℕ) (b c : ℕ)
    → ((n : ℕ) → times n (a ∷ xs) ≤ 1)
    → times c xs ≡ 0
    → Chain s a xs b
    → Chain (link s (last_of a xs) c) a xs c
relinked_end s a [] b c h k m = linked s a c
relinked_end s a (x ∷ xs) b c h k (n, m, d) =
    let p = last_of x xs in
    (
      link_next s p c a (omega (arith, h p, times_last x xs, one_sym a p)) ∙ n,
      link_prev s p c x (omega (arith, k, one_sym x c)) ∙ m,
      relinked_end s x xs b c (λ n. omega (arith, h n)) (omega (arith, k)) d,
    )

-- The start of a chain is reached from elsewhere.
relinked_start :
    (s : Store) (p y : ℕ) (ys : List ℕ) (b : ℕ)
    → times p ys ≡ 0
    → ((n : ℕ) → times n ys + one n b ≤ 1)
    → Chain s y ys b
    → Chain (link s p (s.next y)) p ys b
relinked_start s p y [] b h k (n, m) = rw n (linked s p b)
relinked_start s p y (x ∷ ys) b h k (n, m, c) =
    let (e, f) = linked s p x in
    subst (λ (q : ℕ). Chain (link s p q) p (x ∷ ys) b) (sym n)
      (e, f, link-Chain s p x x ys b h (omega (arith, k x, one_self x)) c)

pub init-IsRing : (s : Store) (head : ℕ) → IsRing (list_init s head) head []
init-IsRing s head = record {
  apart = λ n. elim (Bool-cases (n == head)) [
    | inl e ↦ rw e (omega arith)
    | inr ne ↦ rw ne (omega arith)
  ];
  links = (rw (==_self head) refl, rw (==_self head) refl);
}

module _ (s : Store) (head : ℕ) where
  pub push_back-IsRing :
      (item : ℕ) (xs : List ℕ)
      → times item (head ∷ xs) ≡ 0
      → IsRing s head xs
      → IsRing (list_push_back s head item) head (xs ++ item ∷ [])
  unfolding list_push_back
  push_back-IsRing item xs new r =
      let away : one head item ≡ 0 = omega (arith, new, one_sym head item) in
      let none_in : times head xs ≡ 0 = omega (arith, r.apart head, one_self head) in
      record {
        apart = λ n.
            omega (arith, times-append n xs (item ∷ []), apart_new (head ∷ xs) item r.apart new n);
        links =
            subst (λ (p : ℕ). Chain (link (link s p item) item head) head (xs ++ item ∷ []) head)
              (sym (Chain-last s head xs head r.links))
              (Chain-append (link (link s (last_of head xs) item) item head) head xs item [] head
                (link-Chain (link s (last_of head xs) item) item head head xs item new
                  (omega (arith, none_in, away))
                  (relinked_end s head xs head item r.apart (omega (arith, new)) r.links))
                (linked (link s (last_of head xs) item) item head));
      }

  pushed_front :
      (item : ℕ) (xs : List ℕ)
      → times item (head ∷ xs) ≡ 0
      → ((n : ℕ) → times n (head ∷ xs) ≤ 1)
      → Chain s head xs head
      → Chain (link (link s head item) item (s.next head)) item xs head
  pushed_front item [] new h (n, m) = rw n (linked (link s head item) item head)
  pushed_front item (x ∷ xs) new h (n, m, c) =
      let t = link s head item in
      let (e, f) = linked t item x in
      subst (λ (q : ℕ). Chain (link t item q) item (x ∷ xs) head) (sym n)
        (
          e,
          f,
          link-Chain t item x x xs head (omega (arith, new)) (omega (arith, h x, one_self x)) (
              link-Chain s head item x xs head (omega (arith, h head, one_self head))
                (omega (arith, new)) c),
        )

  pub push_front-IsRing :
      (item : ℕ) (xs : List ℕ)
      → times item (head ∷ xs) ≡ 0
      → IsRing s head xs
      → IsRing (list_push_front s head item) head (item ∷ xs)
  unfolding list_push_front
  push_front-IsRing item xs new r =
      let t = link s head item in
      let away : one head item ≡ 0 = omega (arith, new, one_sym head item) in
      record {
        apart = λ n. omega (arith, apart_new (head ∷ xs) item r.apart new n);
        links = (
          link_next t item (s.next head) head away ∙ (linked s head item).0,
          link_prev t item (s.next head) item (first_apart item xs new r.links)
              ∙ (linked s head item).1,
          pushed_front item xs new r.apart r.links,
        );
      }
    where
      first_apart :
          (item : ℕ) (xs : List ℕ)
          → times item (head ∷ xs) ≡ 0
          → Chain s head xs head
          → one item (s.next head) ≡ 0
      first_apart item [] new (n, m) = rw n (omega (arith, new))
      first_apart item (x ∷ xs) new (n, m, c) = rw n (omega (arith, new))

  -- An entry in the middle is passed over.
  pub unlinked :
      (xs : List ℕ) (x : ℕ) (ys : List ℕ)
      → IsRing s head (xs ++ x ∷ ys)
      → IsRing (link s (last_of head xs) (s.next x)) head (xs ++ ys)
  unlinked xs x ys r = record {
    apart = λ n. omega (arith, times-append n xs ys, times-append n xs (x ∷ ys), r.apart n);
    links =
        by_rest ys (λ n. omega (arith, times-append n xs (x ∷ ys), r.apart n))
          (Chain-split s head xs x ys head r.links).0 (Chain-split s head xs x ys head r.links).1;
  }
    where
      by_rest :
          (ys : List ℕ)
          → ((n : ℕ) → times n (head ∷ xs) + (one n x + times n ys) ≤ 1)
          → Chain s head xs x
          → Chain s x ys head
          → Chain (link s (last_of head xs) (s.next x)) head (xs ++ ys) head
      by_rest [] h c (n, m) =
          subst (λ (q : ℕ). Chain (link s (last_of head xs) q) head (xs ++ []) head) (sym n)
            (rw (append-nil xs) (
              relinked_end s head xs x head (λ k. omega (arith, h k))
                (omega (arith, h head, one_self head)) c))
      by_rest (y ∷ ys) h c (n, m, d) =
          let p = last_of head xs in
          subst (λ (q : ℕ). Chain (link s p q) head (xs ++ y ∷ ys) head) (sym n)
            (Chain-append (link s p y) head xs y ys head
              (relinked_end s head xs x y (λ k. omega (arith, h k)) (omega (arith, h y, one_self y))
                c)
              (link-Chain s p y y ys head (omega (arith, h p, times_last head xs))
                (omega (arith, h y, one_self y, one_sym y head)) d))
