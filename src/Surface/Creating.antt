-- ===== src/Surface/Creating.antt =====
-- What comes of `CreateContainer`.
use raptor_lite.Common.{ℕ, ◌<◌, ◌≡◌, true, length}
use raptor_lite.Container.Table.{Inv}
use raptor_lite.Property.{Property, ContainerOption}
use raptor_lite.Surface.{
  App, Threads, no_mq, CreateResult, missing_message_handler, not_created, created, settings_of,
}

-- Every thread that is asked for can be had.
abbrev pub Obliging : Threads → Type 0
Obliging threads =
    ((n : ℕ) → threads.poll n ≡ true)
    × ((n : ℕ) → threads.back n ≡ true)
    × (threads.timer ≡ true)
    × ((i : ℕ) → threads.mq i ≡ true)

-- What is created from a table with the option `o`.
abbrev pub Created : App → ContainerOption → CreateResult → Type 0
Created app o missing_message_handler = o.msg_handler ≡ 0
Created app o (not_created e) = (o.mq_consumer_threads ≡ 0) × (e ≡ no_mq)
Created app o (created c) =
    (0 < o.msg_handler)
    × (0 < o.mq_consumer_threads)
    × Inv c
    × (length c.mgr ≡ o.default_container_size)
    × (c.settings ≡ settings_of app o)
