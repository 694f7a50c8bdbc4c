-- ===== src/Protocol.antt =====
-- `Connection::ParsingProtocol` and `ReadSliceFromRecvBuffer` of src/linux/connection.cc: how a
-- receive buffer is cut into packets. The application's `OnCheckPackageLength` is a parameter: it
-- is taken as a function of the bytes that it is shown.
pub mod Split
pub mod Refine
pub mod Stuck
use raptor_lite.Common.{
  ℕ, zero, suc, ◌-◌, ◌≤◌, Bool, true, false, Option, none, some, List, [], ◌∷◌, leb, ltb, ◌==◌,
  if◌then◌else◌,
}
use raptor_lite.Common.Int.{ℤ, pos, negsuc}
use raptor_lite.Slice.{Slice, size, to_string, pop_back}
use raptor_lite.SliceBuffer.{SliceBuffer, merge, get_header, move_header}

-- `header_size`
abbrev pub header_size : ℕ
header_size = 1024

-- The second part says whether the slice reaches the tail of the buffer; `none` is a failed
-- assertion.
pub read_slice_from_recv_buffer : SliceBuffer → ℕ → Option (Slice × Bool)
read_slice_from_recv_buffer b read_size =
    if leb b.len read_size
    then some (merge b, true)
    else elim (get_header b read_size) [ none ↦ none | some s ↦ some (s, false) ]

-- How one round of the outer loop ends: `goto done`, `return -1`, or with a packet delivered and
-- the rest of the buffer.
pub data Round : Type 0 where
  done : Round
  bad_packet : Round
  packet : Slice → SliceBuffer → Round
  fault : Round

-- The bytes of the packet: read again if the slice at hand is too short.
pub cut_packet : SliceBuffer → Slice → ℕ → Option Slice
cut_packet b pack pack_len =
    if ltb (size pack) pack_len
    then get_header b pack_len
    else some (pop_back pack (size pack - pack_len))

-- `OnDataReceived`, then `MoveHeader`.
deliver_cut : SliceBuffer → ℕ → Option Slice → Round
deliver_cut b pack_len none = fault
deliver_cut b pack_len (some pack) = elim (move_header b pack_len) [
  | none ↦ fault
  | some (_, rest) ↦ packet pack rest
]

pub deliver : SliceBuffer → Slice → ℕ → Round
unfolding deliver_cut
deliver b pack pack_len = deliver_cut b pack_len (cut_packet b pack pack_len)

module _ (check : List ℕ → ℤ) where
  -- The body of `do … while (false)`. Its `continue` goes to the test `false`, so the loop is left
  -- with `pack_len` 0, and what follows it runs with that length.
  judge : SliceBuffer → Slice → Bool → ℤ → Round
  judge b pack reach_tail (negsuc n) = bad_packet
  judge b pack reach_tail (pos zero) = if reach_tail then done else deliver b pack 0
  judge b pack reach_tail (pos (suc n)) = if leb (suc n) b.len then deliver b pack (suc n) else done

  judge_slice : SliceBuffer → Option (Slice × Bool) → Round
  judge_slice b none = fault
  judge_slice b (some (pack, reach_tail)) = judge b pack reach_tail (check (to_string pack))

  -- One round of `while (cache_size > 0)`.
  pub parse_round : SliceBuffer → Round
  unfolding judge judge_slice
  parse_round b = judge_slice b (read_slice_from_recv_buffer b header_size)

-- What `ParsingProtocol` returns, with the packets that it delivered in order and the buffer that
-- it leaves. The count that it returns is the number of those packets.
pub data Parsed : Type 0 where
  parsed : List Slice → SliceBuffer → Parsed
  protocol_error : List Slice → SliceBuffer → Parsed
  broken : Parsed
  out_of_fuel : List Slice → SliceBuffer → Parsed

abbrev pub put_first : Slice → Parsed → Parsed
put_first s (parsed ds b) = parsed (s ∷ ds) b
put_first s (protocol_error ds b) = protocol_error (s ∷ ds) b
put_first s broken = broken
put_first s (out_of_fuel ds b) = out_of_fuel (s ∷ ds) b

-- What follows a round, where `again` is the rest of the loop.
unfoldable pub after_round : (SliceBuffer → Parsed) → SliceBuffer → Round → Parsed
after_round again b done = parsed [] b
after_round again b bad_packet = protocol_error [] b
after_round again b (packet pack rest) = put_first pack (again rest)
after_round again b fault = broken

-- The outer loop, one unit of fuel for each round.
unfoldable pub parsing_protocol : (List ℕ → ℤ) → ℕ → SliceBuffer → Parsed
parsing_protocol check zero b = out_of_fuel [] b
parsing_protocol check (suc k) b =
    if b.len == 0
    then parsed [] b
    else after_round (parsing_protocol check k) b (parse_round check b)
