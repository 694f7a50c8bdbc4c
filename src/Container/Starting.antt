-- ===== src/Container/Starting.antt =====
-- The table of connections as `Init` leaves it.
use raptor_lite.Common.{
  ℕ, ◌/◌, ◌^◌, ◌≡◌, ◌≤◌, ◌<◌, refl, sym, Bool, [], arith, length, replicate, length-replicate,
}
use raptor_lite.Words.{u16}
use raptor_lite.Container.{Settings, Container, vacant_slot, index_range}
use raptor_lite.Container.Table.{Inv, occupied, deadline_of}
use raptor_lite.Container.Growing.{grown_same, grown_connection, free_grown}

-- A container before `Init`, with the counter of handles that all containers share.
abbrev pub new_container : Settings → ℕ → Bool → Container
new_container settings counter timer_thread = record {
  settings = settings;
  mgr = [];
  timeout_records = [];
  free_index_list = [];
  magic_number = 0;
  last_check_time = 0;
  queue = [];
  count = 0;
  timer_thread = timer_thread;
  counter = counter;
  log = [];
  timers = [];
}

-- `Init`, from its lock of the table on, at the time `now`.
unfoldable pub init_table : Container → ℕ → Container
init_table c now = record c {
  mgr = replicate c.default_container_size vacant_slot;
  free_index_list = index_range 0 c.default_container_size;
  magic_number = u16 (now / 1000 / 2 ^ 16);
  last_check_time = now;
}

nothing :
    (settings : Settings) (counter : ℕ) (timer_thread : Bool)
    → settings.max_container_size < 2 ^ 32
    → Inv (new_container settings counter timer_thread)
nothing settings counter timer_thread small = record {
  free_vacant = λ j. refl;
  one_deadline = λ j. refl;
  known = λ j. refl;
  sorted = tt;
  bounded = omega arith;
  small = small;
  ids = λ j con e. absurd (grind (arith, e));
}

-- A container that has just been set up keeps the invariant, its table has the default size, and
-- its magic number has 16 bits, if the default size is within the limit and the limit has 32 bits.
pub init_table-Inv :
    (settings : Settings) (counter : ℕ) (timer_thread : Bool) (now : ℕ)
    → settings.default_container_size ≤ settings.max_container_size
    → settings.max_container_size < 2 ^ 32
    → let c = init_table (new_container settings counter timer_thread) now in
      Inv c × (length c.mgr ≡ settings.default_container_size) × (c.magic_number < 2 ^ 16)
unfolding init_table
init_table-Inv settings counter timer_thread now le small =
    let n : ℕ = settings.default_container_size in
    let z : Container = new_container settings counter timer_thread in
    (
      record {
        free_vacant = free_grown z n (nothing settings counter timer_thread small) (omega arith);
        one_deadline = λ j. sym (grown_same occupied [] n j refl);
        known = λ j. sym (grown_same deadline_of [] n j refl);
        sorted = tt;
        bounded = omega (arith, length-replicate n vacant_slot);
        small = small;
        ids = λ j con e. absurd (grind (arith, grown_connection [] n j con e));
      },
      length-replicate n vacant_slot,
      omega arith,
    )
