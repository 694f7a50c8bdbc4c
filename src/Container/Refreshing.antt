-- ===== src/Container/Refreshing.antt =====
-- `RefreshTime`.
use raptor_lite.Common.{
  ℕ, ◌+◌, ◌<◌, ◌≡◌, refl, sym, ap, ◌∙◌, true, false, some, arith, ◌==◌, if◌then◌else◌, is_some,
  length, length-set, get_elem?, set, inl, inr, Bool-cases, ==_self, eq_of_==,
}
use raptor_lite.Connection.{Connection}
use raptor_lite.Container.{
  Container, Slot, get_connection, connection_of, erase_at, refresh_slot, refresh_time,
}
use raptor_lite.Container.Timeouts.{
  Deadline, insert, erase, count_index, find_index, SortedFrom-erase, SortedFrom-insert,
  count_index-erase, find_index-erase, find_index-insert, count_index-insert, find_one,
}
use raptor_lite.Container.Table.{Inv, occupied, vacant, deadline_of, get_elem?-set, get_elem?-some}
use raptor_lite.Container.Deleting.{second_of, one_entry}

-- The slot with a new deadline.
abbrev with_deadline : Slot → Deadline → Slot
with_deadline s d = record s { second = some d }

-- The container with the deadline of the connection at `i` moved to `n`.
abbrev moved : Container → (i t n : ℕ) → Slot → Container
moved c i t n s = record c {
  mgr = set c.mgr i (with_deadline s (n, i));
  timeout_records = insert (n, i) (erase (t, i) c.timeout_records);
}

module _ (c : Container) (i t n : ℕ) (s : Slot) (v : Inv c) (here : get_elem? c.mgr i ≡ some s)
    (full : is_some s.first ≡ true) (due : find_index i c.timeout_records ≡ some (t, i)) where
  slots :
      (j : ℕ)
      → get_elem? (set c.mgr i (with_deadline s (n, i))) j
        ≡ (if j == i then some (with_deadline s (n, i)) else get_elem? c.mgr j)
  slots j = get_elem?-set c.mgr i j s (with_deadline s (n, i)) here

  erased : count_index i (erase (t, i) c.timeout_records) ≡ 0
  erased =
      let e = count_index-erase i i t c.timeout_records due in
      omega (arith, (rw (==_self i) at e), one_entry c i s v here full)

  -- The connections of the table stay.
  connections : (j : ℕ) → get_connection (moved c i t n s) j ≡ get_connection c j
  connections j = ap connection_of (slots j) ∙ elim (Bool-cases (j == i)) [
    | inl e ↦ rw (e, eq_of_== j i e, here) refl
    | inr ne ↦ rw ne refl
  ]

  free_moved :
      (j : ℕ)
      → vacant (get_elem? (set c.mgr i (with_deadline s (n, i))) j) ≡ vacant (get_elem? c.mgr j)
  free_moved j = rw (slots j) (elim (Bool-cases (j == i)) [
    | inl e ↦ rw (e, eq_of_== j i e, here) refl
    | inr ne ↦ rw ne refl
  ])

  count_moved :
      (j : ℕ)
      → count_index j (insert (n, i) (erase (t, i) c.timeout_records))
        ≡ occupied (get_elem? (set c.mgr i (with_deadline s (n, i))) j)
  count_moved j =
      rw (slots j, count_index-insert j n i (erase (t, i) c.timeout_records))
        (elim (Bool-cases (j == i)) [
          | inl e ↦ rw (e, eq_of_== j i e, erased, full) refl
          | inr ne ↦
              let k = count_index-erase j i t c.timeout_records due in
              rw ne (omega (arith, (rw ne at k), v.one_deadline j))
        ])

  known_moved :
      (j : ℕ)
      → find_index j (insert (n, i) (erase (t, i) c.timeout_records))
        ≡ deadline_of (get_elem? (set c.mgr i (with_deadline s (n, i))) j)
  known_moved j =
      rw (slots j, find_index-insert j n i (erase (t, i) c.timeout_records) erased)
        (elim (Bool-cases (j == i)) [
          | inl e ↦ rw e refl
          | inr ne ↦ rw (ne, find_index-erase j i t c.timeout_records ne) (v.known j)
        ])

  moved-Inv : Inv (moved c i t n s)
  moved-Inv = record {
    free_vacant = λ j. v.free_vacant j ∙ sym (free_moved j);
    one_deadline = count_moved;
    known = known_moved;
    sorted =
        SortedFrom-insert 0 n i (erase (t, i) c.timeout_records) (omega arith)
          (SortedFrom-erase 0 (t, i) c.timeout_records v.sorted);
    bounded = rw (length-set c.mgr i (with_deadline s (n, i))) v.bounded;
    small = v.small;
    ids = λ j con e. v.ids j con (sym (connections j) ∙ e);
  }

-- What a refresh at the time `now` leaves behind.
pub record Refreshed (c : Container) (i now : ℕ) : Type 0 where
  pub result : Container
  pub refreshes : refresh_time c i now ≡ some result
  pub kept : Inv result
  pub same : (j : ℕ) → get_connection result j ≡ get_connection c j
  pub due :
      (con : Connection)
      → get_connection c i ≡ some (some con)
      → find_index i result.timeout_records ≡ some (now + c.connection_timeoutms, i)

refresh_vacant :
    (c : Container) (i now : ℕ) (s : Slot)
    → Inv c
    → get_elem? c.mgr i ≡ some s
    → is_some s.first ≡ false
    → Refreshed c i now
unfolding refresh_time refresh_slot erase_at
refresh_vacant c i now s v here e = record {
  result = c;
  refreshes = rw (here, e) refl;
  kept = v;
  same = λ j. refl;
  due = λ con h. absurd (grind (arith, here, e, h, ap connection_of here));
}

refresh_occupied :
    (c : Container) (i t now : ℕ) (s : Slot)
    → Inv c
    → get_elem? c.mgr i ≡ some s
    → is_some s.first ≡ true
    → find_index i c.timeout_records ≡ some (t, i)
    → Refreshed c i now
unfolding refresh_time refresh_slot erase_at
refresh_occupied c i t now s v here full d =
    let n : ℕ = now + c.connection_timeoutms in
    record {
      result = moved c i t n s;
      refreshes = rw (here, full, (second_of c i s v here ∙ d)) refl;
      kept = moved-Inv c i t n s v here full d;
      same = connections c i t n s v here full d;
      due = λ con h.
          known_moved c i t n s v here full d i
          ∙ rw (slots c i t n s v here full d i, ==_self i) refl;
    }

-- In a table that keeps the invariant, a refresh at an index of the table always succeeds, keeps the
-- invariant and every connection, and sets the one deadline of a connection at that index to the
-- time plus the timeout.
pub refresh_time-Refreshed :
    (c : Container) (i now : ℕ) → Inv c → i < length c.mgr → Refreshed c i now
refresh_time-Refreshed c i now v h =
    let (s, here) = get_elem?-some c.mgr i h in
    elim (Bool-cases (is_some s.first)) [
      | inl full ↦
          let (t, d) = find_one i c.timeout_records (one_entry c i s v here full) in
          refresh_occupied c i t now s v here full d
      | inr e ↦ refresh_vacant c i now s v here e
    ]
