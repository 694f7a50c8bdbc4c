-- ===== src/Property/Values.antt =====
-- What a table holds, and what is read from it.
use Prim.Native.String.{String}
use text.Mathlib.Text.{◌==◌}
use text.Mathlib.TextEquality.{eq_iff}
use raptor_lite.Common.{ℕ, ◌<◌, ◌^◌, ◌≡◌, refl, some, [], ◌∷◌, arith, if◌then◌else◌}
use raptor_lite.Common.Int.{ℤ, pos, negsuc}
use raptor_lite.Property.{Property, find_entry, set_entry}

-- The values of an `int32_t`.
abbrev pub IsInt32 : ℤ → Type 0
IsInt32 (pos n) = n < 2 ^ 31
IsInt32 (negsuc n) = n < 2 ^ 31

pub find_entry-set_entry :
    (k j : String) (v : ℕ) (p : Property)
    → find_entry j (set_entry k v p) ≡ (if k == j then some v else find_entry j p)
unfolding find_entry set_entry
find_entry-set_entry k j v [] = refl
find_entry-set_entry k j v ((i, w) ∷ p) =
    ground (arith, eq_iff k j, eq_iff i k, eq_iff i j, find_entry-set_entry k j v p)
