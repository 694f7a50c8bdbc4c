-- ===== src/ListEntry/Refine.antt =====
-- The operations on a ring against the same operations on a list of entries.
use raptor_lite.Common.{
  ℕ, ◌+◌, ◌≤◌, ◌≡◌, refl, sym, ap, subst, Bool, true, false, Option, some, none, List, [], ◌∷◌,
  ◌++◌, ◌==◌, ==_self, eq_of_==, if◌then◌else◌, inl, inr, Bool-cases, one, times, one_self,
  one_apart, one_sym, times-append, arith, append-nil,
}
use raptor_lite.ListEntry.{
  Store, list_push_front, list_push_back, list_pop_front, list_pop_back, list_remove_entry,
}
use raptor_lite.ListEntry.Ring.{
  Chain, IsRing, link, last_of, Chain-split, Chain-last, unlinked, push_back-IsRing,
  push_front-IsRing,
}

pub data ListOp : Type 0 where
  push_front push_back remove : ℕ → ListOp
  pop_front pop_back : ListOp

-- The entry that is given back, if any; for `remove` it is the entry where the result is 1.
abbrev only : Bool → ℕ → Option ℕ
only true item = some item
only false item = none

abbrev pub on_store : ℕ → ListOp → Store → Option ℕ × Store
on_store head (push_front item) s = (none, list_push_front s head item)
on_store head (push_back item) s = (none, list_push_back s head item)
on_store head (remove item) s =
    (only (list_remove_entry s item).0 item, (list_remove_entry s item).1)
on_store head pop_front s = list_pop_front s head
on_store head pop_back s = list_pop_back s head

-- The same on the list of the entries, in order.
abbrev without : ℕ → List ℕ → List ℕ
without n [] = []
without n (x ∷ xs) = let rest = without n xs in if n == x then xs else x ∷ rest

abbrev all_but_last : ℕ → List ℕ → List ℕ
all_but_last a [] = []
all_but_last a (x ∷ xs) = a ∷ all_but_last x xs

abbrev pub on_list : ListOp → List ℕ → Option ℕ × List ℕ
on_list (push_front item) xs = (none, item ∷ xs)
on_list (push_back item) xs = (none, xs ++ item ∷ [])
on_list (remove item) xs = (some item, without item xs)
on_list pop_front [] = (none, [])
on_list pop_front (x ∷ xs) = (some x, xs)
on_list pop_back [] = (none, [])
on_list pop_back (x ∷ xs) = (some (last_of x xs), all_but_last x xs)

-- What is pushed is new, and what is removed is in the list.
abbrev Allows : ℕ → ListOp → List ℕ → Type 0
Allows head (push_front item) xs = times item (head ∷ xs) ≡ 0
Allows head (push_back item) xs = times item (head ∷ xs) ≡ 0
Allows head (remove item) xs = 1 ≤ times item xs
Allows head pop_front xs = Unit {0}
Allows head pop_back xs = Unit {0}

abbrev pub AllowsAll : ℕ → List ListOp → List ℕ → Type 0
AllowsAll head [] xs = Unit {0}
AllowsAll head (o ∷ os) xs = Allows head o xs × AllowsAll head os (on_list o xs).1

abbrev pub stores : ℕ → List ListOp → Store → List (Option ℕ) × Store
stores head [] s = ([], s)
stores head (o ∷ os) s = let r = on_store head o s in let q = stores head os r.1 in (r.0 ∷ q.0, q.1)

abbrev pub lists : List ListOp → List ℕ → List (Option ℕ) × List ℕ
lists [] xs = ([], xs)
lists (o ∷ os) xs = let r = on_list o xs in let q = lists os r.1 in (r.0 ∷ q.0, q.1)

cut_last : (x : ℕ) (xs : List ℕ) → all_but_last x xs ++ last_of x xs ∷ [] ≡ x ∷ xs
cut_last x [] = refl
cut_last x (y ∷ xs) = ap (λ (zs : List ℕ). x ∷ zs) (cut_last y xs)

-- An entry of a list, with those before and behind it.
record Found (n : ℕ) (xs : List ℕ) : Type 0 where
  before : List ℕ
  behind : List ℕ
  whole : before ++ n ∷ behind ≡ xs
  others : before ++ behind ≡ without n xs

find : (n : ℕ) (xs : List ℕ) → 1 ≤ times n xs → Found n xs
find n [] h = absurd (omega (arith, h))
find n (x ∷ xs) h = elim (Bool-cases (n == x)) [
  | inl e ↦ record {
    before = [];
    behind = xs;
    whole = ap (λ (m : ℕ). m ∷ xs) (eq_of_== n x e);
    others = rw e refl;
  }
  | inr ne ↦
      let f = find n xs (omega (arith, h, away ne)) in
      record {
        before = x ∷ f.before;
        behind = f.behind;
        whole = ap (λ (zs : List ℕ). x ∷ zs) f.whole;
        others = rw ne (ap (λ (zs : List ℕ). x ∷ zs) f.others);
      }
]
  where
    away : (n == x) ≡ false → one n x ≡ 0
    away ne = rw ne refl

-- An operation has the result of the list, and leaves the ring of what is left of it.
abbrev pub Does : ℕ → Option ℕ × Store → Option ℕ × List ℕ → Type 0
Does head r q = (r.0 ≡ q.0) × IsRing r.1 head q.1

module _ (s : Store) (head : ℕ) where
  abbrev popped : ℕ → ℕ → Option ℕ × Store
  popped p x = (some x, link s p (s.next x))

  removed_as :
      (x p : ℕ)
      → s.prev x ≡ p
      → one (s.next x) x ≡ 0
      → (list_remove_entry s x).0 ≡ true × ((list_remove_entry s x).1 ≡ link s p (s.next x))
  unfolding list_remove_entry
  removed_as x p e h = rw (one_apart (s.next x) x h, e) (refl, refl)

  front_as : (x : ℕ) → s.next head ≡ x → one x head ≡ 0 → list_pop_front s head ≡ popped head x
  unfolding list_pop_front
  front_as x e h = rw (e, one_apart x head h) refl

  back_as :
      (x p : ℕ)
      → s.prev head ≡ x
      → s.prev x ≡ p
      → s.next x ≡ head
      → one (s.next head) head ≡ 0
      → list_pop_back s head ≡ popped p x
  unfolding list_pop_back
  back_as x p e f g h = rw (e, f, g, one_apart (s.next head) head h) refl

  -- An entry is not linked to itself.
  next_apart :
      (xs : List ℕ) (x : ℕ) (ys : List ℕ) → IsRing s head (xs ++ x ∷ ys) → one (s.next x) x ≡ 0
  next_apart xs x ys r =
      by_rest ys (λ n. omega (arith, times-append n xs (x ∷ ys), r.apart n))
        (Chain-split s head xs x ys head r.links).1
    where
      by_rest :
          (ys : List ℕ)
          → ((n : ℕ) → times n (head ∷ xs) + (one n x + times n ys) ≤ 1)
          → Chain s x ys head
          → one (s.next x) x ≡ 0
      by_rest [] h (n, m) = rw n (omega (arith, h x, one_self x, one_sym x head))
      by_rest (y ∷ ys) h (n, m, c) = rw n (omega (arith, h x, one_self x, one_sym x y))

  pub remove-Does :
      (xs : List ℕ) (x : ℕ) (ys : List ℕ)
      → IsRing s head (xs ++ x ∷ ys)
      → Does head (on_store head (remove x) s) (some x, xs ++ ys)
  remove-Does xs x ys r =
      let c = Chain-split s head xs x ys head r.links in
      let (e, f) =
        removed_as x (last_of head xs) (Chain-last s head xs x c.0) (next_apart xs x ys r) in
      rw (e, f) (refl, unlinked s head xs x ys r)

  pop_front-Does :
      (xs : List ℕ) → IsRing s head xs → Does head (list_pop_front s head) (on_list pop_front xs)
  unfolding list_pop_front
  pop_front-Does [] r = rw (r.links.0, ==_self head) (refl, r)
  pop_front-Does (x ∷ xs) r =
      subst (λ (q : Option ℕ × Store). Does head q (some x, xs))
        (sym (front_as x r.links.0 (omega (arith, r.apart head, one_self head, one_sym head x))))
        (refl, unlinked s head [] x xs r)

  pop_last-Does :
      (xs : List ℕ) (x : ℕ)
      → IsRing s head (xs ++ x ∷ [])
      → one (s.next head) head ≡ 0
      → Does head (list_pop_back s head) (some x, xs)
  pop_last-Does xs x r h =
      let c = Chain-split s head xs x [] head r.links in
      subst (λ (q : Option ℕ × Store). Does head q (some x, xs))
        (sym (back_as x (last_of head xs) c.1.1 (Chain-last s head xs x c.0) c.1.0 h))
        (
          refl,
          subst (IsRing (link s (last_of head xs) (s.next x)) head) (append-nil xs)
              (unlinked s head xs x [] r),
        )

  pop_back-Does :
      (xs : List ℕ) → IsRing s head xs → Does head (list_pop_back s head) (on_list pop_back xs)
  unfolding list_pop_back
  pop_back-Does [] r = rw (r.links.0, ==_self head) (refl, r)
  pop_back-Does (x ∷ xs) r =
      pop_last-Does (all_but_last x xs) (last_of x xs)
        (subst (IsRing s head) (sym (cut_last x xs)) r)
        (rw r.links.0 (omega (arith, r.apart head, one_self head, one_sym head x)))

  op-Does :
      (o : ListOp) (xs : List ℕ)
      → Allows head o xs
      → IsRing s head xs
      → Does head (on_store head o s) (on_list o xs)
  op-Does (push_front item) xs a r = (refl, push_front-IsRing s head item xs a r)
  op-Does (push_back item) xs a r = (refl, push_back-IsRing s head item xs a r)
  op-Does (remove item) xs a r =
      let f = find item xs a in
      subst (λ (zs : List ℕ). Does head (on_store head (remove item) s) (some item, zs)) f.others
        (remove-Does f.before item f.behind (subst (IsRing s head) (sym f.whole) r))
  op-Does pop_front xs a r = pop_front-Does xs r
  op-Does pop_back xs a r = pop_back-Does xs r

-- A ring behaves as the list of its entries: for pushes at either end of entries that are not in it, pops
-- at either end, on an empty ring too, and removals of entries that are in it, in any order, the results
-- are those of the list, and the ring that is left has the entries of the list, in order, linked both ways.
pub stores-Does :
    (head : ℕ) (os : List ListOp) (s : Store) (xs : List ℕ)
    → AllowsAll head os xs
    → IsRing s head xs
    → ((stores head os s).0 ≡ (lists os xs).0) × IsRing (stores head os s).1 head (lists os xs).1
stores-Does head [] s xs a r = (refl, r)
stores-Does head (o ∷ os) s xs (a, b) r =
    let (e, f) = op-Does s head o xs a r in
    let (g, h) = stores-Does head os (on_store head o s).1 (on_list o xs).1 b f in (cc, h)
