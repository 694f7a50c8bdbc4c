-- ===== src/Container/Expiry.antt =====
-- `OnTimeoutCheck`: which connections it closes.
use raptor_lite.Common.{
  ℕ, ◌+◌, ◌≤◌, ◌<◌, ◌≡◌, refl, sym, ap, ◌∙◌, true, false, Option, none, some, List, [], ◌∷◌, arith,
  ◌==◌, ltb, get_elem?, inl, inr, Bool-cases, ==_self, eq_of_==, subst, ltb→lt, le_of_not_ltb,
  Option-cases,
}
use raptor_lite.Connection.{Connection, connection_timeout}
use raptor_lite.Container.{Container, Slot, get_connection, connection_of}
use raptor_lite.Container.Timeouts.{Deadline, count_index, find_index, erase, SortedFrom}
use raptor_lite.Container.Table.{Inv, occupied}
use raptor_lite.Container.Admission.{holder}
use raptor_lite.Container.Serving.{Ended, shut_down-Ended}
use raptor_lite.Container.Calls.{expire_one, and_then, expire, on_timeout_check}

occupied_con :
    (o : Option Slot) → 0 < occupied o → (con : Connection) × (connection_of o ≡ some (some con))
occupied_con none h = absurd (omega arith)
occupied_con (some s) h = elim (Option-cases s.first) [
  | inl e ↦ absurd (omega (arith, (rw e at h)))
  | inr (con, e) ↦ (con, ap some e)
]

-- In a list in order, no entry stands before the first.
found_from :
    (t j u : ℕ) (ds : List Deadline) → SortedFrom t ds → find_index j ds ≡ some (u, j) → t ≤ u
found_from t j u [] s h = cc
found_from t j u ((w, k) ∷ ds) s h = elim (Bool-cases (j == k)) [
  | inl e ↦ let same : w ≡ u = grind (arith, (rw e at h)) in omega (arith, s.0, same)
  | inr ne ↦ omega (arith, s.0, found_from w j u ds s.1 (rw ne at h))
]

-- What the loop leaves, with the records before it.
record Expired (now : ℕ) (ds : List Deadline) (c : Container) : Type 0 where
  result : Container
  expires : expire now ds c ≡ some result
  kept : Inv result
  still_none : (j : ℕ) → holder c j ≡ none → holder result j ≡ none
  closed : (j t : ℕ) → find_index j ds ≡ some (t, j) → t ≤ now → holder result j ≡ none
  stays : (j t : ℕ) → find_index j ds ≡ some (t, j) → now < t → holder result j ≡ holder c j

head_occupied :
    (c : Container) (t i : ℕ) (ds : List Deadline)
    → Inv c
    → c.timeout_records ≡ (t, i) ∷ ds
    → (con : Connection) × (get_connection c i ≡ some (some con))
head_occupied c t i ds v e =
    let n = sym (v.one_deadline i) ∙ ap (count_index i) e in
    occupied_con (get_elem? c.mgr i) (omega (arith, (rw (==_self i) at n)))

head_found : (t i : ℕ) (ds : List Deadline) → find_index i ((t, i) ∷ ds) ≡ some (t, i)
head_found t i ds = rw (==_self i) refl

head_erased : (t i : ℕ) (ds : List Deadline) → erase (t, i) ((t, i) ∷ ds) ≡ ds
unfolding erase
head_erased t i ds = rw (==_self t, ==_self i) refl

expire_stop :
    (now t i : ℕ) (ds : List Deadline) (c : Container)
    → Inv c
    → c.timeout_records ≡ (t, i) ∷ ds
    → ltb now t ≡ true
    → Expired now ((t, i) ∷ ds) c
unfolding expire
expire_stop now t i ds c v e late =
    let first = λ (j u : ℕ) (h : find_index j ((t, i) ∷ ds) ≡ some (u, j)).
      found_from t j u ((t, i) ∷ ds) (omega arith, (subst (SortedFrom 0) e v.sorted).1) h in
    record {
      result = c;
      expires = rw late refl;
      kept = v;
      still_none = λ j h. h;
      closed = λ j u h le. absurd (omega (arith, first j u h, ltb→lt now t late));
      stays = λ j u h lt. refl;
    }

expire_next :
    (now t i : ℕ) (ds : List Deadline) (c : Container) (con : Connection)
    → ltb now t ≡ false
    → get_connection c i ≡ some (some con)
    → (s : Ended c i con true connection_timeout) → Expired now ds s.result
    → Expired now ((t, i) ∷ ds) c
unfolding expire expire_one and_then
expire_next now t i ds c con due at_i s r = record {
  result = r.result;
  expires = rw due (
      ap (λ (o : Option (Option Connection)). and_then (expire now ds) (expire_one c i o)) at_i
      ∙ ap (and_then (expire now ds)) s.shuts
      ∙ r.expires);
  kept = r.kept;
  still_none = λ j h. r.still_none j (elim (Bool-cases (j == i)) [
    | inl e ↦ rw (eq_of_== j i e) s.gone
    | inr ne ↦ s.others j ne ∙ h
  ]);
  closed = λ j u h le. elim (Bool-cases (j == i)) [
    | inl e ↦ r.still_none j (rw (eq_of_== j i e) s.gone)
    | inr ne ↦ r.closed j u (rw ne at h) le
  ];
  stays = λ j u h lt. elim (Bool-cases (j == i)) [
    | inl e ↦
        let same : t ≡ u = grind (arith, (rw e at h)) in
        absurd (omega (arith, lt, same, le_of_not_ltb now t due))
    | inr ne ↦ r.stays j u (rw ne at h) lt ∙ s.others j ne
  ];
}

expire-Expired :
    (now : ℕ) (ds : List Deadline) (c : Container)
    → Inv c
    → c.timeout_records ≡ ds
    → Expired now ds c
unfolding expire
expire-Expired now [] c v e = record {
  result = c;
  expires = refl;
  kept = v;
  still_none = λ j h. h;
  closed = λ j u h le. absurd (grind (arith, h));
  stays = λ j u h lt. refl;
}
expire-Expired now ((t, i) ∷ ds) c v e = elim (Bool-cases (ltb now t)) [
  | inl late ↦ expire_stop now t i ds c v e late
  | inr due ↦
      let (con, at_i) = head_occupied c t i ds v e in
      let s = shut_down-Ended c i con true connection_timeout v at_i in
      let rest =
        s.records t (ap (find_index i) e ∙ head_found t i ds)
        ∙ ap (erase (t, i)) e
        ∙ head_erased t i ds in
      expire_next now t i ds c con due at_i s (expire-Expired now ds s.result s.kept rest)
]

-- What a check of the deadlines at the time `now` leaves.
pub record Checked (c : Container) (now : ℕ) : Type 0 where
  pub result : Container
  pub checks : on_timeout_check c now ≡ some result
  pub kept : Inv result
  pub too_early : now < c.last_check_time + 3000 → result ≡ c
  pub closed :
      c.last_check_time + 3000 ≤ now
      → (j t : ℕ) → find_index j c.timeout_records ≡ some (t, j)
      → t ≤ now
      → holder result j ≡ none
  pub stays :
      (j t : ℕ)
      → find_index j c.timeout_records ≡ some (t, j)
      → now < t
      → holder result j ≡ holder c j
  pub still_none : (j : ℕ) → holder c j ≡ none → holder result j ≡ none

pub set_check_Inv : (c : Container) (now : ℕ) → Inv c → Inv (record c { last_check_time = now })
set_check_Inv c now v = record {
  free_vacant = v.free_vacant;
  one_deadline = v.one_deadline;
  known = v.known;
  sorted = v.sorted;
  bounded = v.bounded;
  small = v.small;
  ids = v.ids;
}

-- In a container that keeps the invariant, a check of the deadlines always comes to an end without
-- a null connection, and keeps the invariant; less than 3000 milliseconds after the last check it
-- changes nothing, and otherwise it removes every connection whose deadline is not after the time;
-- a connection whose deadline is after the time stays as it is, and a vacant index stays vacant.
pub on_timeout_check-Checked : (c : Container) (now : ℕ) → Inv c → Checked c now
unfolding on_timeout_check
on_timeout_check-Checked c now v = elim (Bool-cases (ltb now (c.last_check_time + 3000))) [
  | inl early ↦ record {
    result = c;
    checks = rw early refl;
    kept = v;
    too_early = λ h. refl;
    closed = λ h j t f le. absurd (omega (arith, h, ltb→lt now (c.last_check_time + 3000) early));
    stays = λ j t f lt. refl;
    still_none = λ j h. h;
  }
  | inr late ↦
      let r =
        expire-Expired now c.timeout_records (record c { last_check_time = now })
          (set_check_Inv c now v) refl in
      record {
        result = r.result;
        checks = rw late r.expires;
        kept = r.kept;
        too_early =
            λ h. absurd (omega (arith, h, le_of_not_ltb now (c.last_check_time + 3000) late));
        closed = λ h j t f le. r.closed j t f le;
        stays = r.stays;
        still_none = r.still_none;
      }
]
