-- ===== src/HostPort.antt =====
-- src/common/host_port.cc, and the parts of src/utils/string_view.h that it uses: names of the form
-- `host:port` and `[host]:port`. A view is the list of its bytes.
pub mod RoundTrip
use raptor_lite.Common.{
  ℕ, zero, suc, ◌+◌, ◌-◌, Bool, true, false, ◌&&◌, not, Option, none, some, List, [], ◌∷◌, ◌++◌,
  leb, ◌==◌, if◌then◌else◌, is_some, length, get_elem?, take, drop, min,
}

abbrev pub colon : ℕ
colon = 58

abbrev pub left_bracket : ℕ
left_bracket = 91

abbrev pub right_bracket : ℕ
right_bracket = 93

abbrev pub shift : ℕ → Option ℕ → Option ℕ
shift k none = none
shift k (some i) = some (k + i)

-- `memchr`, as an index; also `strchr` of a text without a zero byte.
unfoldable pub index_of : ℕ → List ℕ → Option ℕ
index_of c [] = none
index_of c (x ∷ xs) = let rest = shift 1 (index_of c xs) in if x == c then some 0 else rest

-- `StringView::find`; `none` is `npos`.
unfoldable pub find : List ℕ → ℕ → ℕ → Option ℕ
find name c at = if leb (length name) at then none else shift at (index_of c (drop at name))

-- `StringView::substr`
unfoldable pub substr : List ℕ → ℕ → ℕ → List ℕ
substr name start size = take (min size (length name - start)) (drop start name)

-- `JoinHostPort`: `decimal` is what `%d` prints for the port. `host[0]` of the empty text is its
-- closing zero, which is no bracket.
abbrev pub starts_with : ℕ → List ℕ → Bool
starts_with c [] = false
starts_with c (x ∷ xs) = x == c

unfoldable pub join_host_port : List ℕ → (decimal : List ℕ) → List ℕ
join_host_port host decimal =
    if not (starts_with left_bracket host) && is_some (index_of colon host)
    then left_bracket ∷ host ++ right_bracket ∷ colon ∷ decimal
    else host ++ colon ∷ decimal

-- What `DoSplitHostPort` leaves in its results, and what it returns.
pub record Parts : Type 0 where
  pub host : List ℕ
  pub port : List ℕ
  pub has_port : Bool
  pub ok : Bool

abbrev pub parts : List ℕ → List ℕ → Bool → Bool → Parts
parts host port has_port ok = record { host = host; port = port; has_port = has_port; ok = ok }

-- A bracketed host has to hold a colon.
unfoldable pub bracketed_host : List ℕ → List ℕ → Bool → Parts
bracketed_host host port has_port =
    if is_some (find host colon 0)
    then parts host port has_port true
    else parts [] port has_port false

abbrev pub byte_is : ℕ → Option ℕ → Bool
byte_is c none = false
byte_is c (some x) = x == c

unfoldable pub bracketed : List ℕ → Option ℕ → Parts
bracketed name none = parts [] [] false false
bracketed name (some rbracket) =
    if rbracket == length name - 1
    then bracketed_host (substr name 1 (rbracket - 1)) [] false
    else if byte_is colon (get_elem? name (rbracket + 1))
    then bracketed_host (substr name 1 (rbracket - 1))
        (substr name (rbracket + 2) (length name - rbracket - 2)) true
    else parts [] [] false false

unfoldable pub bare : List ℕ → Option ℕ → Parts
bare name none = parts name [] false true
bare name (some at) =
    if is_some (find name colon (at + 1))
    then parts name [] false true
    else parts (substr name 0 at) (substr name (at + 1) (length name - at - 1)) true true

unfoldable pub split_from : List ℕ → Option ℕ → Option Parts
split_from name none = none
split_from name (some c) = some (
    if c == left_bracket
    then bracketed name (find name right_bracket 1)
    else bare name (find name colon 0))

-- `DoSplitHostPort` from the cleared results of its callers; `none` is the read of `name[0]` of an
-- empty view.
unfoldable pub split_host_port : List ℕ → Option Parts
split_host_port name = split_from name (get_elem? name 0)
