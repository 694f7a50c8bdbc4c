-- ===== src/TextExamples.antt =====
-- The theorems on names of hosts, on timers and on linked entries at concrete inputs.
use raptor_lite.Common.{ℕ, ◌≡◌, refl, true, some, List, [], ◌∷◌}
use raptor_lite.HostPort.{index_of, join_host_port, split_host_port, parts}
use raptor_lite.HostPort.RoundTrip.{split-join}

-- `::1` and `80`.
abbrev loopback : List ℕ
loopback = 58 ∷ 58 ∷ 49 ∷ []

abbrev eighty : List ℕ
eighty = 56 ∷ 48 ∷ []

split-join_example :
    split_host_port (join_host_port loopback eighty) ≡ some (parts loopback eighty true true)
unfolding index_of
split-join_example = split-join loopback eighty refl refl refl
