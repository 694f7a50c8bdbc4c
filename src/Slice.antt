-- ===== src/Slice.antt =====
-- src/utils/slice.cc and include/raptor-lite/utils/slice.h: a byte string that is held inline when
-- it is short, and in a shared block when it is long. A slice never writes into a block that
-- another slice can see (only a fresh block is filled), so a block is modelled by its bytes, without
-- its reference count.
pub mod Bytes
pub mod Pops
pub mod Build
use raptor_lite.Common.{
  ℕ, zero, suc, ◌+◌, ◌-◌, ◌%◌, ◌^◌, Bool, true, false, ◌&&◌, Option, none, some, List, [], ◌∷◌,
  ◌++◌, ltb, leb, ◌==◌, if◌then◌else◌, length, take, drop, replicate,
}
use raptor_lite.Words.{u64}

-- `SLICE_INLINED_SIZE`
abbrev pub slice_inlined_size : ℕ
slice_inlined_size = 23

-- `_refs` is null in the first case. A refcounted slice is a window of its block: `bytes` points
-- `offset` bytes into it.
pub data Slice : Type 0 where
  inlined : (len : ℕ) (bytes : List ℕ) → Slice
  refcounted : (block : List ℕ) (offset len : ℕ) → Slice

-- What a fresh block holds before it is filled. It stays shut, so that no proof depends on it.
pub uninit : ℕ → List ℕ
uninit n = replicate n 0

-- `memcpy(buf + pos, src, n)` with `src` cut to its `n` bytes; also `memmove` within one array.
unfoldable pub memcpy : List ℕ → ℕ → List ℕ → List ℕ
memcpy buf pos src = take pos buf ++ (src ++ drop (pos + length src) buf)

-- `strlen`
pub strlen : List ℕ → ℕ
strlen [] = 0
strlen (c ∷ cs) = if c == 0 then 0 else suc (strlen cs)

-- `memcmp(a, b, n) == 0` over arrays of one length.
unfoldable pub bytes_eq : List ℕ → List ℕ → Bool
bytes_eq [] [] = true
bytes_eq (x ∷ xs) (y ∷ ys) = x == y && bytes_eq xs ys
bytes_eq _ _ = false

-- `Slice::Slice()`, whose `memset` clears the union.
abbrev pub empty_slice : Slice
empty_slice = inlined 0 (replicate 23 0)

copy_in : List ℕ → Option (List ℕ) → ℕ → List ℕ
copy_in buf none len = buf
copy_in buf (some src) len = memcpy buf 0 (take len src)

-- `Slice::Slice(const char *ptr, size_t len)`; `none` is a null `ptr`.
unfoldable pub from_ptr : Option (List ℕ) → ℕ → Slice
unfolding copy_in
from_ptr ptr len =
    if len == 0
    then empty_slice
    else if leb len slice_inlined_size
    then inlined (len % 2 ^ 8) (copy_in (uninit 23) ptr len)
    else refcounted (copy_in (uninit len) ptr len) 0 len

-- `Slice::Slice(const std::string &)`
unfoldable pub from_string : List ℕ → Slice
unfolding from_ptr
from_string s = from_ptr (some s) (length s)

-- `Slice::Slice(const char *ptr)`
pub from_cstr : List ℕ → Slice
from_cstr s = from_ptr (some s) (strlen s)

unfoldable pub size : Slice → ℕ
size (inlined len bytes) = len
size (refcounted block offset len) = len

-- The memory that `begin()` points at, to its end.
unfoldable pub memory : Slice → List ℕ
memory (inlined len bytes) = bytes
memory (refcounted block offset len) = drop offset block

unfoldable pub is_empty : Slice → Bool
is_empty s = size s == 0

-- `ToString()`, and what the range of `size()` bytes from `begin()` holds.
unfoldable pub to_string : Slice → List ℕ
unfolding size memory
to_string s = take (size s) (memory s)

pub compare_string : Slice → List ℕ → Bool
compare_string s str =
    if length str == 0 && is_empty s
    then true
    else if length str == size s
    then bytes_eq (to_string s) str
    else false

pub equals : Slice → Slice → Bool
equals a s =
    if is_empty s && is_empty a
    then true
    else if size s == size a
    then bytes_eq (to_string a) (to_string s)
    else false

-- `length -= n` on the field's own width, which is 8 bits in the inline case.
unfoldable pub shrink_back : Slice → ℕ → Slice
shrink_back (inlined len bytes) n = inlined ((len + 2 ^ 8 - n % 2 ^ 8) % 2 ^ 8) bytes
shrink_back (refcounted block offset len) n = refcounted block offset (u64 (len + 2 ^ 64 - n))

unfoldable pub pop_back : Slice → ℕ → Slice
unfolding shrink_back size
pop_back s remove_size =
    if remove_size == 0
    then s
    else shrink_back s (if ltb (size s) remove_size then size s else remove_size)

unfoldable pub shrink_front : Slice → ℕ → Slice
shrink_front (inlined len bytes) n =
    let left : ℕ = (len + 2 ^ 8 - n % 2 ^ 8) % 2 ^ 8 in
    inlined left (memcpy bytes 0 (take left (drop n bytes)))
shrink_front (refcounted block offset len) n =
    refcounted block (offset + n) (u64 (len + 2 ^ 64 - n))

unfoldable pub pop_front : Slice → ℕ → Slice
unfolding shrink_front size
pop_front s remove_size =
    if remove_size == 0
    then s
    else shrink_front s (if ltb (size s) remove_size then size s else remove_size)

-- `MakeSliceByLength`
unfoldable pub make_slice_by_length : ℕ → Slice
make_slice_by_length len =
    if leb len slice_inlined_size
    then inlined (len % 2 ^ 8) (replicate 23 0)
    else refcounted (uninit len) 0 len

-- `MakeSliceByDefaultSize`; `SliceRefCount` is one 32-bit counter.
pub make_slice_by_default_size : Slice
make_slice_by_default_size = make_slice_by_length (4096 - 4)

-- `memcpy(s.Buffer() + pos, src, n)` into a fresh slice.
unfoldable pub fill : Slice → ℕ → List ℕ → Slice
fill (inlined len bytes) pos src = inlined len (memcpy bytes pos src)
fill (refcounted block offset len) pos src = refcounted (memcpy block (offset + pos) src) offset len

-- `operator+`
pub concat : Slice → Slice → Slice
concat s1 s2 =
    if is_empty s1 && is_empty s2
    then empty_slice
    else let s = make_slice_by_length (u64 (size s1 + size s2)) in
      let t = if is_empty s1 then s else fill s 0 (to_string s1) in
      let pos : ℕ = if is_empty s1 then 0 else size s1 in
      if is_empty s2 then t else fill t pos (to_string s2)

-- `Slice::Assign`
pub assign : Slice → List ℕ → Slice
assign old s = from_string s
