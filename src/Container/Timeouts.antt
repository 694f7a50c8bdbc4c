-- ===== src/Container/Timeouts.antt =====
-- `_timeout_records`, a `std::multimap` from deadlines to indices, as the list of its entries in
-- order.
use raptor_lite.Common.{
  ℕ, ◌+◌, ◌≤◌, ◌≡◌, refl, false, ◌&&◌, Option, none, some, List, [], ◌∷◌, arith, leb, ◌==◌,
  if◌then◌else◌, inl, inr, Bool-cases, lt_of_not_leb,
}

-- A deadline in milliseconds, and an index of the table.
abbrev pub Deadline : Type 0
Deadline = ℕ × ℕ

-- `insert` puts an entry behind those of its key.
unfoldable pub insert : Deadline → List Deadline → List Deadline
insert (t, i) [] = (t, i) ∷ []
insert (t, i) ((u, j) ∷ ds) = if leb u t then (u, j) ∷ insert (t, i) ds else (t, i) ∷ (u, j) ∷ ds

unfoldable pub erase : Deadline → List Deadline → List Deadline
erase d [] = []
erase (t, i) ((u, j) ∷ ds) = if t == u && i == j then ds else (u, j) ∷ erase (t, i) ds

-- How many entries are of an index, and the first of them.
abbrev pub count_index : ℕ → List Deadline → ℕ
count_index i [] = 0
count_index i ((u, j) ∷ ds) = (if i == j then 1 else 0) + count_index i ds

abbrev pub find_index : ℕ → List Deadline → Option Deadline
find_index i [] = none
find_index i ((u, j) ∷ ds) = if i == j then some (u, j) else find_index i ds

-- No entry stands before `t`, and the entries are in order.
abbrev pub SortedFrom : ℕ → List Deadline → Type 0
SortedFrom t [] = Unit {0}
SortedFrom t ((u, j) ∷ ds) = (t ≤ u) × SortedFrom u ds

pub count_index-insert :
    (i t j : ℕ) (ds : List Deadline)
    → count_index i (insert (t, j) ds) ≡ (if i == j then 1 else 0) + count_index i ds
unfolding insert
count_index-insert i t j [] = refl
count_index-insert i t j ((u, k) ∷ ds) = ground (arith, count_index-insert i t j ds)

-- An index with no entry finds its new one; the others find what they found.
pub find_index-insert :
    (i t j : ℕ) (ds : List Deadline)
    → count_index j ds ≡ 0
    → find_index i (insert (t, j) ds) ≡ (if i == j then some (t, j) else find_index i ds)
unfolding insert
find_index-insert i t j [] h = refl
find_index-insert i t j ((u, k) ∷ ds) h = ground (arith, find_index-insert i t j ds)

pub SortedFrom-mono : (t u : ℕ) (ds : List Deadline) → t ≤ u → SortedFrom u ds → SortedFrom t ds
SortedFrom-mono t u [] h s = tt
SortedFrom-mono t u ((v, j) ∷ ds) h s = (omega arith, s.1)

pub SortedFrom-insert :
    (b t j : ℕ) (ds : List Deadline) → b ≤ t → SortedFrom b ds → SortedFrom b (insert (t, j) ds)
unfolding insert
SortedFrom-insert b t j [] h s = (h, tt)
SortedFrom-insert b t j ((u, k) ∷ ds) h s = elim (Bool-cases (leb u t)) [
  | inl le ↦ rw le (s.0, SortedFrom-insert u t j ds (ground arith) s.1)
  | inr gt ↦ rw gt (h, (omega (arith, lt_of_not_leb u t gt), s.1))
]

pub SortedFrom-erase :
    (b : ℕ) (d : Deadline) (ds : List Deadline) → SortedFrom b ds → SortedFrom b (erase d ds)
unfolding erase
SortedFrom-erase b d [] s = tt
SortedFrom-erase b (t, i) ((u, j) ∷ ds) s =
    ground (arith, SortedFrom-erase u (t, i) ds s.1, SortedFrom-mono b u ds)

-- Erasing the entry that an index finds takes one entry of that index, and none of another.
pub count_index-erase :
    (i j t : ℕ) (ds : List Deadline)
    → find_index j ds ≡ some (t, j)
    → count_index i (erase (t, j) ds) + (if i == j then 1 else 0) ≡ count_index i ds
unfolding erase
count_index-erase i j t [] h = cc
count_index-erase i j t ((u, k) ∷ ds) h = ground (arith, count_index-erase i j t ds)

pub find_index-erase :
    (i j t : ℕ) (ds : List Deadline)
    → (i == j) ≡ false
    → find_index i (erase (t, j) ds) ≡ find_index i ds
unfolding erase
find_index-erase i j t [] ne = refl
find_index-erase i j t ((u, k) ∷ ds) ne = ground (arith, find_index-erase i j t ds)

pub find_none : (i : ℕ) (ds : List Deadline) → count_index i ds ≡ 0 → find_index i ds ≡ none
find_none i [] h = refl
find_none i ((u, k) ∷ ds) h = ground (arith, find_none i ds)

pub find_one :
    (i : ℕ) (ds : List Deadline) → count_index i ds ≡ 1 → (t : ℕ) × (find_index i ds ≡ some (t, i))
find_one i [] h = absurd (omega arith)
find_one i ((u, k) ∷ ds) h = elim (Bool-cases (i == k)) [
  | inl e ↦ (u, rw e (ground arith))
  | inr ne ↦ rw ne (find_one i ds (omega (arith, (rw ne at h))))
]
