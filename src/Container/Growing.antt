-- ===== src/Container/Growing.antt =====
-- The growth of the table of connections when no index is free.
use raptor_lite.Common.{
  ℕ, zero, suc, ◌+◌, ◌-◌, ◌≤◌, ◌^◌, ◌≡◌, refl, sym, ap, ◌∙◌, Option, none, some, List, [], ◌∷◌,
  ◌++◌, arith, ltb, if◌then◌else◌, length, length-append, length-replicate, get_elem?, replicate,
  inl, inr, Bool-cases, le_of_not_ltb,
}
use raptor_lite.Connection.{Connection}
use raptor_lite.Container.{
  Container, Slot, vacant_slot, connection_of, expand, expanded, index_range,
}
use raptor_lite.Container.Table.{Inv, count, occupied, vacant, deadline_of, count-append}

-- The slots of a table with `k` vacant slots behind it.
pub get_elem?-grown :
    (mgr : List Slot) (k i : ℕ)
    → get_elem? (mgr ++ replicate k vacant_slot) i ≡ (
        if ltb i (length mgr)
        then get_elem? mgr i
        else if ltb i (length mgr + k)
        then some vacant_slot
        else none)
get_elem?-grown [] zero i = ground arith
get_elem?-grown [] (suc k) zero = ground arith
get_elem?-grown [] (suc k) (suc i) = ground (arith, get_elem?-grown [] k i)
get_elem?-grown (s ∷ mgr) k zero = ground arith
get_elem?-grown (s ∷ mgr) k (suc i) = ground (arith, get_elem?-grown mgr k i)

pub get_elem?_past : (mgr : List Slot) (i : ℕ) → length mgr ≤ i → get_elem? mgr i ≡ none
get_elem?_past [] i h = refl
get_elem?_past (s ∷ mgr) zero h = absurd (omega arith)
get_elem?_past (s ∷ mgr) (suc i) h = get_elem?_past mgr i (omega arith)

-- The new indices are each there once.
pub count-index_range :
    (k n i : ℕ)
    → n + k ≤ 2 ^ 32
    → count i (index_range n k) ≡ (if ltb i n then 0 else if ltb i (n + k) then 1 else 0)
count-index_range zero n i h = ground arith
count-index_range (suc k) n i h = ground (arith, count-index_range k (n + 1) i (omega arith))

-- Neither a slot that is not there nor a vacant one has what `f` looks for.
pub grown_same {ℓ} :
    {A : Type ℓ} (f : Option Slot → A) (mgr : List Slot) (k j : ℕ)
    → f (some vacant_slot) ≡ f none
    → f (get_elem? (mgr ++ replicate k vacant_slot) j) ≡ f (get_elem? mgr j)
grown_same f mgr k j e = ap f (get_elem?-grown mgr k j) ∙ elim (Bool-cases (ltb j (length mgr))) [
  | inl lt ↦ rw lt refl
  | inr ge ↦
      rw (ge, get_elem?_past mgr j (le_of_not_ltb j (length mgr) ge))
        (elim (Bool-cases (ltb j (length mgr + k))) [ inl a ↦ rw a e | inr b ↦ rw b refl ])
]

pub grown_connection :
    (mgr : List Slot) (k j : ℕ) (con : Connection)
    → connection_of (get_elem? (mgr ++ replicate k vacant_slot) j) ≡ some (some con)
    → connection_of (get_elem? mgr j) ≡ some (some con)
grown_connection mgr k j con h =
    let e = ap connection_of (get_elem?-grown mgr k j) in
    elim (Bool-cases (ltb j (length mgr))) [
      | inl lt ↦ sym (rw lt at e) ∙ h
      | inr ge ↦ absurd (elim (Bool-cases (ltb j (length mgr + k))) [
        | inl a ↦ grind (arith, rw (ge, a) at e, h)
        | inr b ↦ grind (arith, rw (ge, b) at e, h)
      ])
    ]

pub expanded_bounds :
    (c : Container)
    → length c.mgr ≤ c.max_container_size
    → (length c.mgr ≤ expanded c) × (expanded c ≤ c.max_container_size)
expanded_bounds c h = (ground arith, ground arith)

pub free_grown :
    (c : Container) (k : ℕ)
    → Inv c
    → length c.mgr + k ≤ 2 ^ 32
    → (j : ℕ)
    → count j (c.free_index_list ++ index_range (length c.mgr) k)
      ≡ vacant (get_elem? (c.mgr ++ replicate k vacant_slot) j)
free_grown c k v h j =
    rw
      (
        count-append j c.free_index_list (index_range (length c.mgr) k),
        count-index_range k (length c.mgr) j h,
        v.free_vacant j,
        get_elem?-grown c.mgr k j,
      )
      (elim (Bool-cases (ltb j (length c.mgr))) [
        | inl lt ↦ rw lt (omega arith)
        | inr ge ↦
            rw (ge, get_elem?_past c.mgr j (le_of_not_ltb j (length c.mgr) ge))
              (elim (Bool-cases (ltb j (length c.mgr + k))) [
                | inl a ↦ rw a refl
                | inr b ↦ rw b refl
              ])
      ])

pub expand-Inv : (c : Container) → Inv c → Inv (expand c)
unfolding expand
expand-Inv c v =
    let n : ℕ = length c.mgr in
    let k : ℕ = expanded c - length c.mgr in
    record {
      free_vacant = λ j. free_grown c k v (omega (arith, expanded_bounds c v.bounded, v.small)) j;
      one_deadline = λ j. v.one_deadline j ∙ sym (grown_same occupied c.mgr k j refl);
      known = λ j. v.known j ∙ sym (grown_same deadline_of c.mgr k j refl);
      sorted = v.sorted;
      bounded =
          rw (length-append c.mgr (replicate k vacant_slot), length-replicate k vacant_slot)
            (omega (arith, expanded_bounds c v.bounded));
      small = v.small;
      ids = λ j con e. v.ids j con (grown_connection c.mgr k j con e);
    }
