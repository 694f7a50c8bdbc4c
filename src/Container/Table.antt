-- ===== src/Container/Table.antt =====
-- The invariant of the connection table, its free indices and its deadlines.
use raptor_lite.Common.{
  ℕ, zero, suc, ◌+◌, ◌≤◌, ◌<◌, ◌^◌, ◌≡◌, refl, Option, none, some, List, [], ◌∷◌, ◌++◌, arith, ◌==◌,
  if◌then◌else◌, is_some, length, get_elem?, set,
}
use raptor_lite.Cid.{build_connection_id}
use raptor_lite.Connection.{Connection}
use raptor_lite.Container.{Container, Slot, get_connection}
use raptor_lite.Container.Timeouts.{Deadline, count_index, find_index, SortedFrom}

abbrev pub count : ℕ → List ℕ → ℕ
count i [] = 0
count i (j ∷ js) = (if i == j then 1 else 0) + count i js

-- Whether there is a slot that holds a connection, a slot that holds none, and the deadline kept in
-- the slot.
abbrev pub occupied : Option Slot → ℕ
occupied none = 0
occupied (some s) = if is_some s.first then 1 else 0

abbrev pub vacant : Option Slot → ℕ
vacant none = 0
vacant (some s) = if is_some s.first then 0 else 1

abbrev pub deadline_of : Option Slot → Option Deadline
deadline_of none = none
deadline_of (some s) = s.second

-- The free indices are those of the vacant slots, each once; each connection has one deadline,
-- which its slot knows, and there are no others; the deadlines are in order; the table is within
-- its limit; and a connection's id is built from its endpoint's port and its index.
pub record Inv (c : Container) : Type 0 where
  pub free_vacant : (i : ℕ) → count i c.free_index_list ≡ vacant (get_elem? c.mgr i)
  pub one_deadline : (i : ℕ) → count_index i c.timeout_records ≡ occupied (get_elem? c.mgr i)
  pub known : (i : ℕ) → find_index i c.timeout_records ≡ deadline_of (get_elem? c.mgr i)
  pub sorted : SortedFrom 0 c.timeout_records
  pub bounded : length c.mgr ≤ c.max_container_size
  pub small : c.max_container_size < 2 ^ 32
  pub ids :
      (i : ℕ) (con : Connection)
      → get_connection c i ≡ some (some con)
      → con.endpoint.connection_id ≡ build_connection_id c.magic_number con.endpoint.listen_port i

pub count-append : (i : ℕ) (js ks : List ℕ) → count i (js ++ ks) ≡ count i js + count i ks
count-append i [] ks = omega arith
count-append i (j ∷ js) ks = ground (arith, count-append i js ks)

-- The table after a write at an index that it has.
pub get_elem?-set :
    (mgr : List Slot) (i j : ℕ) (s t : Slot)
    → get_elem? mgr i ≡ some s
    → get_elem? (set mgr i t) j ≡ (if j == i then some t else get_elem? mgr j)
get_elem?-set [] i j s t h = cc
get_elem?-set (u ∷ mgr) zero zero s t h = refl
get_elem?-set (u ∷ mgr) zero (suc j) s t h = ground arith
get_elem?-set (u ∷ mgr) (suc i) zero s t h = ground arith
get_elem?-set (u ∷ mgr) (suc i) (suc j) s t h = ground (arith, get_elem?-set mgr i j s t h)

pub get_elem?-some :
    (mgr : List Slot) (i : ℕ) → i < length mgr → (s : Slot) × (get_elem? mgr i ≡ some s)
get_elem?-some [] i h = absurd (omega arith)
get_elem?-some (s ∷ mgr) zero h = (s, refl)
get_elem?-some (s ∷ mgr) (suc i) h = get_elem?-some mgr i (omega arith)

pub lt_of_get_elem? :
    (mgr : List Slot) (i : ℕ) (s : Slot) → get_elem? mgr i ≡ some s → i < length mgr
lt_of_get_elem? [] i s h = cc
lt_of_get_elem? (t ∷ mgr) zero s h = omega arith
lt_of_get_elem? (t ∷ mgr) (suc i) s h = omega (arith, lt_of_get_elem? mgr i s h)
