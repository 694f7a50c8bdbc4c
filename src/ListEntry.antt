-- ===== src/ListEntry.antt =====
-- src/utils/list_entry.cc: the ring of entries that are linked through their own fields. An entry is
-- its address, and the two fields of all entries are the store.
pub mod Ends
pub mod Ring
pub mod Refine
use raptor_lite.Common.{ℕ, Bool, true, false, Option, none, some, ◌==◌, if◌then◌else◌}

pub record Store : Type 0 where
  pub prev : ℕ → ℕ
  pub next : ℕ → ℕ

-- `entry->next = to` and `entry->prev = to`.
abbrev pub set_next : Store → ℕ → ℕ → Store
set_next s entry to = record s { next = λ e. if e == entry then to else s.next e }

abbrev pub set_prev : Store → ℕ → ℕ → Store
set_prev s entry to = record s { prev = λ e. if e == entry then to else s.prev e }

abbrev pub list_init : Store → ℕ → Store
list_init s head = set_prev (set_next s head head) head head

abbrev pub list_is_empty : Store → ℕ → Bool
list_is_empty s head = s.next head == head

unfoldable pub list_push_front : Store → ℕ → ℕ → Store
list_push_front s head new_item =
    let first = s.next head in
    set_prev (set_next (set_prev (set_next s head new_item) new_item head) new_item first) first
      new_item

unfoldable pub list_push_back : Store → ℕ → ℕ → Store
list_push_back s head new_item =
    let last = s.prev head in
    set_prev (set_next (set_prev (set_next s last new_item) new_item last) new_item head) head
      new_item

-- The entry that is removed, if there is one, and the store.
unfoldable pub list_pop_front : Store → ℕ → Option ℕ × Store
list_pop_front s head =
    let removed = s.next head in
    let second = s.next removed in
    if list_is_empty s head
    then (none, s)
    else (some removed, set_prev (set_next s head second) second head)

unfoldable pub list_pop_back : Store → ℕ → Option ℕ × Store
list_pop_back s head =
    let removed = s.prev head in
    let second = s.prev removed in
    if list_is_empty s head
    then (none, s)
    else (some removed, set_prev (set_next s second head) head second)

-- The Boolean is the result 1.
unfoldable pub list_remove_entry : Store → ℕ → Bool × Store
list_remove_entry s item =
    if s.next item == item
    then (false, s)
    else (true, set_prev (set_next s (s.prev item) (s.next item)) (s.next item) (s.prev item))
