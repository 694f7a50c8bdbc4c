-- ===== src/Container/Deleting.antt =====
-- `DeleteConnection` and `RefreshTime`.
use raptor_lite.Common.{
  ℕ, ◌<◌, ◌≡◌, refl, sym, ap, ◌∙◌, Bool, true, false, Option, none, some, List, [], ◌∷◌, ◌++◌,
  arith, ◌==◌, if◌then◌else◌, is_some, length, length-set, get_elem?, set, inl, inr, Bool-cases,
  ==_self, eq_of_==, ◌⊎◌,
}
use raptor_lite.Connection.{Connection}
use raptor_lite.Container.{
  Container, Slot, vacant_slot, get_connection, connection_of, erase_at, vacate, delete_slot,
  delete_connection,
}
use raptor_lite.Container.Timeouts.{
  Deadline, erase, count_index, find_index, SortedFrom-erase, count_index-erase, find_index-erase,
  find_none, find_one,
}
use raptor_lite.Container.Table.{
  Inv, occupied, deadline_of, count-append, get_elem?-set, get_elem?-some,
}

pub none_of : (o : Option Connection) → is_some o ≡ false → o ≡ none
none_of none h = refl
none_of (some a) h = cc

pub second_of :
    (c : Container) (i : ℕ) (s : Slot)
    → Inv c
    → get_elem? c.mgr i ≡ some s
    → s.second ≡ find_index i c.timeout_records
second_of c i s v here = sym (v.known i ∙ ap deadline_of here)

pub one_entry :
    (c : Container) (i : ℕ) (s : Slot)
    → Inv c
    → get_elem? c.mgr i ≡ some s
    → is_some s.first ≡ true
    → count_index i c.timeout_records ≡ 1
one_entry c i s v here full =
    v.one_deadline i ∙ ap occupied here ∙ ap (λ (b : Bool). if b then 1 else 0) full

no_entry_of :
    (c : Container) (i : ℕ) (s : Slot)
    → Inv c
    → get_elem? c.mgr i ≡ some s
    → is_some s.first ≡ false
    → count_index i c.timeout_records ≡ 0
no_entry_of c i s v here e =
    v.one_deadline i ∙ ap occupied here ∙ ap (λ (b : Bool). if b then 1 else 0) e

-- The slot is vacated: the container `d` is `c` without the connection at `i`.
abbrev pub without : Container → ℕ → List Deadline → Container
without c i ds = record c {
  mgr = set c.mgr i vacant_slot;
  timeout_records = ds;
  free_index_list = c.free_index_list ++ (i ∷ []);
}

module _ (c : Container) (i t : ℕ) (s : Slot) (v : Inv c) (here : get_elem? c.mgr i ≡ some s)
    (full : is_some s.first ≡ true) (due : find_index i c.timeout_records ≡ some (t, i)) where
  one_gone : (j : ℕ) → (j == i) ≡ true → count_index j (erase (t, i) c.timeout_records) ≡ 0
  one_gone j e =
      ground (
        arith,
        eq_of_== j i e,
        v.one_deadline j,
        here,
        count_index-erase j i t c.timeout_records due,
      )

  -- What `find_index` finds when the entry of the vacated slot is gone.
  known_without :
      (j : ℕ)
      → ((j == i) ≡ true) ⊎ ((j == i) ≡ false)
      → find_index j (erase (t, i) c.timeout_records)
        ≡ deadline_of (get_elem? (set c.mgr i vacant_slot) j)
  known_without j (inl e) =
      rw (get_elem?-set c.mgr i j s vacant_slot here, e)
        (find_none j (erase (t, i) c.timeout_records) (one_gone j e))
  known_without j (inr ne) =
      rw
        (
          get_elem?-set c.mgr i j s vacant_slot here,
          ne,
          find_index-erase j i t c.timeout_records ne,
        )
        (v.known j)

  without-Inv : Inv (without c i (erase (t, i) c.timeout_records))
  without-Inv = record {
    free_vacant = λ j. ground (
      arith,
      v.free_vacant j,
      count-append j c.free_index_list (i ∷ []),
      get_elem?-set c.mgr i j s vacant_slot here,
    );
    one_deadline = λ j. ground (
      arith,
      v.one_deadline j,
      count_index-erase j i t c.timeout_records due,
      get_elem?-set c.mgr i j s vacant_slot here,
    );
    known = λ j. known_without j (Bool-cases (j == i));
    sorted = SortedFrom-erase 0 (t, i) c.timeout_records v.sorted;
    bounded = rw (length-set c.mgr i vacant_slot) v.bounded;
    small = v.small;
    ids = λ j con e. ground (arith, v.ids j con, get_elem?-set c.mgr i j s vacant_slot here);
  }

-- What a deletion of the slot `i` leaves behind.
pub record Deleted (c : Container) (i : ℕ) : Type 0 where
  pub result : Container
  pub deletes : delete_connection c i ≡ some result
  pub kept : Inv result
  pub records :
      (t : ℕ)
      → find_index i c.timeout_records ≡ some (t, i)
      → result.timeout_records ≡ erase (t, i) c.timeout_records
  pub limits : result.settings ≡ c.settings
  pub magic : result.magic_number ≡ c.magic_number
  pub gone : get_connection result i ≡ some none
  pub others : (j : ℕ) → (j == i) ≡ false → get_elem? result.mgr j ≡ get_elem? c.mgr j

delete_vacant :
    (c : Container) (i : ℕ) (s : Slot)
    → Inv c
    → get_elem? c.mgr i ≡ some s
    → is_some s.first ≡ false
    → Deleted c i
unfolding delete_connection delete_slot vacate erase_at
delete_vacant c i s v here e = record {
  result = c;
  deletes = rw (here, e) refl;
  kept = v;
  records =
      λ t h. absurd (grind (arith, h, find_none i c.timeout_records (no_entry_of c i s v here e)));
  limits = refl;
  magic = refl;
  gone = ap connection_of here ∙ ap some (none_of s.first e);
  others = λ j ne. refl;
}

delete_occupied :
    (c : Container) (i t : ℕ) (s : Slot)
    → Inv c
    → get_elem? c.mgr i ≡ some s
    → is_some s.first ≡ true
    → find_index i c.timeout_records ≡ some (t, i)
    → Deleted c i
unfolding delete_connection delete_slot vacate erase_at
delete_occupied c i t s v here full due = record {
  result = without c i (erase (t, i) c.timeout_records);
  deletes = rw (here, full, (second_of c i s v here ∙ due)) refl;
  kept = without-Inv c i t s v here full due;
  records = λ u h. ap (λ (x : ℕ). erase (x, i) c.timeout_records) (grind (arith, due, h));
  limits = refl;
  magic = refl;
  gone = ap connection_of (
      get_elem?-set c.mgr i i s vacant_slot here
      ∙ ap (λ (b : Bool). if b then some vacant_slot else get_elem? c.mgr i) (==_self i));
  others = λ j ne. rw (get_elem?-set c.mgr i j s vacant_slot here, ne) refl;
}

-- In a table that keeps the invariant, a deletion at an index of the table always succeeds and keeps
-- the invariant; the slot is vacant afterwards, and the other slots are what they were.
pub delete_connection-Deleted : (c : Container) (i : ℕ) → Inv c → i < length c.mgr → Deleted c i
delete_connection-Deleted c i v h =
    let (s, here) = get_elem?-some c.mgr i h in
    elim (Bool-cases (is_some s.first)) [
      | inl full ↦
          let (t, due) = find_one i c.timeout_records (one_entry c i s v here full) in
          delete_occupied c i t s v here full due
      | inr e ↦ delete_vacant c i s v here e
    ]
