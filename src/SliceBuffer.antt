-- ===== src/SliceBuffer.antt =====
-- src/utils/slice_buffer.cc: a queue of slices that is read as one byte string.
pub mod Contents
pub mod Header
use raptor_lite.Common.{
  ℕ, zero, suc, ◌+◌, ◌-◌, ◌%◌, ◌^◌, min, Bool, true, false, ◌||◌, Option, none, some, List, [], ◌∷◌,
  ◌++◌, ltb, ◌==◌, if◌then◌else◌, length, get_elem?, take,
}
use raptor_lite.Words.{u64, sub64}
use raptor_lite.Slice.{Slice, empty_slice, size, to_string, pop_front, make_slice_by_length, fill}

-- `_vs` and `_length`
pub record SliceBuffer : Type 0 where
  pub vs : List Slice
  pub len : ℕ

abbrev pub buffer : List Slice → ℕ → SliceBuffer
buffer vs len = record { vs = vs; len = len }

abbrev pub empty_buffer : SliceBuffer
empty_buffer = buffer [] 0

abbrev pub slice_count : SliceBuffer → ℕ
slice_count b = length b.vs

abbrev pub get_buffer_length : SliceBuffer → ℕ
get_buffer_length b = b.len

unfoldable pub add_slice : SliceBuffer → Slice → SliceBuffer
add_slice b s = buffer (b.vs ++ (s ∷ [])) (u64 (b.len + size s))

-- The loop of `Merge`, with `pos` for `buf`.
merge_loop : List Slice → ℕ → Slice → Slice
merge_loop [] pos ret = ret
merge_loop (s ∷ vs) pos ret =
    merge_loop vs (if ltb 0 (size s) then pos + size s else pos)
      (if ltb 0 (size s) then fill ret pos (to_string s) else ret)

merge_slices : List Slice → ℕ → Slice
merge_slices [] len = empty_slice
merge_slices (s ∷ []) len = s
merge_slices (s ∷ t ∷ vs) len = merge_loop (s ∷ t ∷ vs) 0 (make_slice_by_length len)

pub merge : SliceBuffer → Slice
merge b = merge_slices b.vs b.len

-- The loop of `CopyToBuffer`: the destination, and `pos` at the end.
copy_loop : List Slice → (left pos : ℕ) → Slice → Slice × ℕ
copy_loop [] left pos dst = (dst, pos)
copy_loop (s ∷ vs) left pos dst =
    let n : ℕ = min left (size s) in
    let rest = copy_loop vs (left - n) (pos + n) (fill dst pos (take n (to_string s))) in
    if left == 0 then (dst, pos) else rest

-- `none` is the failed assertion of `CopyToBuffer`.
copy_to_buffer : SliceBuffer → Slice → ℕ → Option (Slice × ℕ)
copy_to_buffer b dst n = if ltb b.len n then none else some (copy_loop b.vs n 0 dst)

-- `GetHeader`, where the assertion of `CopyToBuffer` may still fail.
header : Option (Slice × ℕ) → Option Slice
header none = none
header (some (s, _)) = some s

pub get_header : SliceBuffer → ℕ → Option Slice
unfolding header
get_header b n =
    if n == 0 || ltb b.len n
    then some empty_slice
    else header (copy_to_buffer b (make_slice_by_length n) n)

-- `MoveHeader`; `none` is the read of `*_vs.begin()` of an empty vector.
move_from : List Slice → (total len : ℕ) → Option (Bool × SliceBuffer)
move_from [] total len =
    if ltb total len
    then some (false, buffer [] total)
    else if len == 0
    then some (true, buffer [] total)
    else none
move_from (s ∷ vs) total len =
    let rest = move_from vs (sub64 total (size s)) (sub64 len (size s)) in
    if ltb total len
    then some (false, buffer (s ∷ vs) total)
    else if len == 0
    then some (true, buffer (s ∷ vs) total)
    else if ltb len (size s)
    then some (true, buffer (pop_front s len ∷ vs) (sub64 total len))
    else if size s == len
    then some (true, buffer vs (sub64 total len))
    else rest

pub move_header : SliceBuffer → ℕ → Option (Bool × SliceBuffer)
move_header b n = move_from b.vs b.len n

pub clear_buffer : SliceBuffer → SliceBuffer
clear_buffer b = empty_buffer

vector_empty : List Slice → Bool
vector_empty [] = true
vector_empty (s ∷ vs) = false

-- `Empty()`: of the vector, not of the bytes.
pub is_empty : SliceBuffer → Bool
unfolding vector_empty
is_empty b = vector_empty b.vs

-- `Front()` and `Back()`; `none` is the failed assertion.
pub front : SliceBuffer → Option Slice
front b = get_elem? b.vs 0

pub back : SliceBuffer → Option Slice
back b = get_elem? b.vs (length b.vs - 1)

pop_first : List Slice → ℕ → SliceBuffer
pop_first [] len = buffer [] len
pop_first (s ∷ vs) len = buffer vs (sub64 len (size s))

-- `PopFront()`
pub pop_front_slice : SliceBuffer → SliceBuffer
unfolding pop_first
pop_front_slice b = pop_first b.vs b.len

pop_last : List Slice → ℕ → SliceBuffer
pop_last [] len = buffer [] len
pop_last (s ∷ []) len = buffer [] (sub64 len (size s))
pop_last (s ∷ t ∷ vs) len = let r = pop_last (t ∷ vs) len in record r { vs = s ∷ r.vs }

-- `PopBack()`
pub pop_back_slice : SliceBuffer → SliceBuffer
pop_back_slice b = pop_last b.vs b.len

-- `ForEachSlice`, for a callback with a state: it stops behind the first slice that is refused.
module _ {S : Type 0} (callback : S → Slice → S × Bool) where
  for_each : S → List Slice → S
  for_each st [] = st
  for_each st (s ∷ vs) =
      let (st', go_on) = callback st s in let rest = for_each st' vs in if go_on then rest else st'

  pub for_each_slice : S → SliceBuffer → S
  for_each_slice st b = for_each st b.vs
