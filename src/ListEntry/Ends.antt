-- ===== src/ListEntry/Ends.antt =====
-- A push at the front of a ring is taken back by the pop there and by a removal.
use raptor_lite.Common.{
  sym, ap, ◌∙◌, ℕ, ◌≡◌, refl, ◌==◌, true, false, some, arith, inl, inr, Bool-cases, ==_self,
  eq_of_==,
}
use raptor_lite.ListEntry.{
  Store, set_next, set_prev, list_push_front, list_pop_front, list_remove_entry,
}

-- The fields of the other entries are the same.
pub record SameBut (item : ℕ) (s t : Store) : Type 0 where
  pub next_same : (e : ℕ) → (e == item) ≡ false → t.next e ≡ s.next e
  pub prev_same : (e : ℕ) → (e == item) ≡ false → t.prev e ≡ s.prev e

-- The link behind the head is joined to it, and the item is neither of the two.
pub record Linked (s : Store) (head item : ℕ) : Type 0 where
  pub first_back : s.prev (s.next head) ≡ head
  pub not_head : (item == head) ≡ false
  pub not_first : (item == s.next head) ≡ false

ne_sym : (a b : ℕ) → (a == b) ≡ false → (b == a) ≡ false
ne_sym a b h = ground arith

-- The links around an item that has been pushed at the front.
record Pushed (s t : Store) (head item : ℕ) : Type 0 where
  from_head : t.next head ≡ item
  on : t.next item ≡ s.next head
  back : t.prev item ≡ head
  other_next : (e : ℕ) → (e == head) ≡ false → (e == item) ≡ false → t.next e ≡ s.next e
  other_prev : (e : ℕ) → (e == s.next head) ≡ false → (e == item) ≡ false → t.prev e ≡ s.prev e

push_front-Pushed :
    (s : Store) (head item : ℕ)
    → Linked s head item
    → Pushed s (list_push_front s head item) head item
unfolding list_push_front
push_front-Pushed s head item l = record {
  from_head = rw (ne_sym item head l.not_head, ==_self head) refl;
  on = rw (==_self item) refl;
  back = rw (l.not_first, ==_self item) refl;
  other_next = λ e h k. rw (k, h) refl;
  other_prev = λ e h k. rw (h, k) refl;
}

-- The store with `head` and `first` linked to one another.
abbrev joined : Store → ℕ → ℕ → Store
joined t head first = set_prev (set_next t head first) first head

restored :
    (s t : Store) (head item : ℕ)
    → Linked s head item
    → Pushed s t head item
    → SameBut item s (joined t head (s.next head))
restored s t head item l p = record {
  next_same = λ e k. elim (Bool-cases (e == head)) [
    | inl at ↦ rw (at, eq_of_== e head at) refl
    | inr ne ↦ rw ne (p.other_next e ne k)
  ];
  prev_same = λ e k. elim (Bool-cases (e == s.next head)) [
    | inl at ↦ rw at (sym (ap s.prev (eq_of_== e (s.next head) at) ∙ l.first_back))
    | inr ne ↦ rw ne (p.other_prev e ne k)
  ];
}

pop_at :
    (t : Store) (head item first : ℕ)
    → t.next head ≡ item
    → t.next item ≡ first
    → (item == head) ≡ false
    → ((list_pop_front t head).0 ≡ some item) × ((list_pop_front t head).1 ≡ joined t head first)
unfolding list_pop_front
pop_at t head item first a b ne = rw (a, b, ne) (refl, refl)

remove_at :
    (t : Store) (head item first : ℕ)
    → t.next item ≡ first
    → t.prev item ≡ head
    → (first == item) ≡ false
    → ((list_remove_entry t item).0 ≡ true) × ((list_remove_entry t item).1 ≡ joined t head first)
unfolding list_remove_entry
remove_at t head item first a b ne = rw (a, b, ne) (refl, refl)

-- What is pushed at the front of a linked ring is what a pop at the front gives, and the pop restores
-- the links of all other entries; a removal of the entry restores them too.
pub pop_front-push_front :
    (s : Store) (head item : ℕ)
    → Linked s head item
    → let t = list_push_front s head item in
      ((list_pop_front t head).0 ≡ some item)
      × SameBut item s (list_pop_front t head).1
      × ((list_remove_entry t item).0 ≡ true)
      × SameBut item s (list_remove_entry t item).1
pop_front-push_front s head item l =
    let t = list_push_front s head item in
    let p = push_front-Pushed s head item l in
    let (popped, left) = pop_at t head item (s.next head) p.from_head p.on l.not_head in
    let (removed, gone) =
      remove_at t head item (s.next head) p.on p.back (ne_sym item (s.next head) l.not_first) in
    let whole = restored s t head item l p in (popped, rw left whole, removed, rw gone whole)
