-- ===== src/Cid.antt =====
-- src/common/cid.h: the 64-bit connection id, which packs a magic number, a listening port and the
-- index of a slot.
use Prim.Native.Nat.{bit_and, bit_or}
use raptor_lite.Common.{
  ℕ, ◌+◌, ◌-◌, ◌*◌, ◌/◌, ◌^◌, ◌<◌, ◌≡◌, ◌≢◌, ◌↔◌, Bool, true, false, arith, ◌==◌, if◌then◌else◌,
}
use raptor_lite.Words.{u16, u32, u64, bit_or_shifted, bit_and-mask}

-- `(ConnectionId)(~0)`: the `int` -1 widened to 64 bits.
abbrev pub invalid_connection_id : ℕ
invalid_connection_id = 2 ^ 64 - 1

pub build_connection_id : ℕ → ℕ → ℕ → ℕ
build_connection_id magic listen_port uid =
    let n : ℕ = bit_or (u32 (magic * 2 ^ 16)) listen_port in bit_or (u64 (n * 2 ^ 32)) uid

pub get_magic_number : ℕ → ℕ
get_magic_number cid = let n : ℕ = u32 (cid / 2 ^ 32) in u16 (n / 2 ^ 16)

pub verify_connection_id : ℕ → ℕ → Bool
verify_connection_id cid magic =
    if cid == invalid_connection_id
    then false
    else let n : ℕ = u32 (cid / 2 ^ 32) in magic == u16 (n / 2 ^ 16)

pub get_listen_port : ℕ → ℕ
get_listen_port cid = let n : ℕ = u32 (cid / 2 ^ 32) in u16 (bit_and n 0xffff)

pub get_user_id : ℕ → ℕ
get_user_id cid = u32 (bit_and cid 0xffffffff)

-- The fields of an id, as the constructor is given them.
pub record Fits (magic listen_port uid : ℕ) : Type 0 where
  pub magic_fits : magic < 2 ^ 16
  pub port_fits : listen_port < 2 ^ 16
  pub uid_fits : uid < 2 ^ 32

module _ (magic listen_port uid : ℕ) (f : Fits magic listen_port uid) where
  build_sum :
      build_connection_id magic listen_port uid ≡ (magic * 2 ^ 16 + listen_port) * 2 ^ 32 + uid
  unfolding build_connection_id
  build_sum =
      let small : u32 (magic * 2 ^ 16) ≡ magic * 2 ^ 16 = omega arith in
      let high : bit_or (magic * 2 ^ 16) listen_port ≡ magic * 2 ^ 16 + listen_port =
        bit_or_shifted 16 magic listen_port f.port_fits in
      let fits : u64 ((magic * 2 ^ 16 + listen_port) * 2 ^ 32)
          ≡ (magic * 2 ^ 16 + listen_port) * 2 ^ 32 =
        omega arith in
      rw (small, high, fits) (bit_or_shifted 32 (magic * 2 ^ 16 + listen_port) uid f.uid_fits)

  -- The three fields that an id is built from are read back from it, for fields in their ranges.
  pub build-get :
      (get_magic_number (build_connection_id magic listen_port uid) ≡ magic)
      × (get_listen_port (build_connection_id magic listen_port uid) ≡ listen_port)
      × (get_user_id (build_connection_id magic listen_port uid) ≡ uid)
  unfolding get_magic_number get_listen_port get_user_id
  build-get = rw build_sum (
    omega arith,
    omega (arith, bit_and-mask 16 (u32 (((magic * 2 ^ 16 + listen_port) * 2 ^ 32 + uid) / 2 ^ 32))),
    omega (arith, bit_and-mask 32 ((magic * 2 ^ 16 + listen_port) * 2 ^ 32 + uid)),
  )

  -- An id built from fields in range, with an index that is not all ones, is not the invalid id and
  -- verifies against its own magic number and no other.
  pub verify-build :
      (other : ℕ)
      → uid ≢ 2 ^ 32 - 1
      → (verify_connection_id (build_connection_id magic listen_port uid) other ≡ true)
        ↔ (other ≡ magic)
  unfolding verify_connection_id
  verify-build other ne = rw build_sum ((λ h. ground arith), (λ h. ground arith))

  pub build_valid :
      uid ≢ 2 ^ 32 - 1
      → (build_connection_id magic listen_port uid == invalid_connection_id) ≡ false
  build_valid ne = rw build_sum (ground (arith, f.uid_fits, ne))
