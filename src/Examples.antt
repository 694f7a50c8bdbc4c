-- ===== src/Examples.antt =====
-- The theorems at concrete inputs: short packets whose first byte says how many bytes follow it,
-- and a socket that takes two bytes at a time.
use raptor_lite.Common.{
  ℕ, suc, ◌≡◌, ◌≢◌, refl, true, Option, none, some, List, [], ◌∷◌, ◌++◌, arith, length, take, drop,
  replicate, ltb, if◌then◌else◌, length-take, length-append, length-replicate, lt→ltb,
}
use raptor_lite.Common.Int.{ℤ, pos}
use raptor_lite.Slice.{Slice, inlined, refcounted, size, to_string}
use raptor_lite.Slice.Bytes.{IsValid, small, window, length-to_string}
use raptor_lite.SliceBuffer.{SliceBuffer, buffer, move_header}
use raptor_lite.SliceBuffer.Contents.{contents, IsBuffer}
use raptor_lite.SliceBuffer.Header.{Moved, move_header-contents}
use raptor_lite.Protocol.{parsing_protocol}
use raptor_lite.Protocol.Split.{split, unfinished}
use raptor_lite.Protocol.Refine.{
  DecidesEarly, Keeps, view, parsing_protocol-Keeps, parsing_protocol-frames,
}
use raptor_lite.Protocol.Stuck.{StillRunning, parsing_protocol-StillRunning}
use raptor_lite.Endpoint.{Endpoint}
use raptor_lite.Connection.{Connection, Sent, sent, Recv, got, on_send, on_recv}
use raptor_lite.Connection.Sending.{Honest, SendsPrefix, on_send-SendsPrefix}
use raptor_lite.Connection.Receiving.{Reads, DeliversPackets, on_recv-DeliversPackets}

-- Two slices of short packets.
abbrev first_bytes : Slice
first_bytes = inlined 4 (2 ∷ 7 ∷ 8 ∷ 1 ∷ replicate 19 0)

abbrev last_bytes : Slice
last_bytes = inlined 2 (9 ∷ 3 ∷ replicate 21 0)

first_IsValid : IsValid first_bytes
first_IsValid = small refl (omega arith)

last_IsValid : IsValid last_bytes
last_IsValid = small refl (omega arith)

abbrev arrived : SliceBuffer
arrived = buffer (first_bytes ∷ last_bytes ∷ []) 6

arrived-IsBuffer : IsBuffer arrived
unfolding to_string
arrived-IsBuffer = record {
  slices = (first_IsValid, (last_IsValid, tt));
  counted = refl;
  fits = omega arith;
}

-- The first byte of a packet is the number of the bytes that follow it.
abbrev length_check : List ℕ → ℤ
length_check [] = pos 0
length_check (x ∷ xs) = pos (suc x)

length_check_early : DecidesEarly length_check
length_check_early [] h = absurd (omega arith)
length_check_early (x ∷ xs) h = ((λ e. cc), refl)

-- A check that wants 2000 bytes.
abbrev long_check : List ℕ → ℤ
long_check xs = if ltb (length xs) 2000 then pos 0 else pos 2000

move_header-contents_example : Moved (drop 5 (contents arrived)) (move_header arrived 5)
move_header-contents_example = move_header-contents arrived 5 arrived-IsBuffer

parsing_protocol-Keeps_example : Keeps (contents arrived) (parsing_protocol length_check 7 arrived)
parsing_protocol-Keeps_example = parsing_protocol-Keeps length_check 7 arrived arrived-IsBuffer

parsing_protocol-frames_example :
    (view (parsing_protocol length_check 7 arrived) ≡ split length_check 7 (contents arrived))
    × (view (parsing_protocol length_check 7 arrived) ≢ unfinished)
parsing_protocol-frames_example =
    parsing_protocol-frames length_check length_check_early 7 arrived arrived-IsBuffer (omega arith)

-- A connection on descriptor 5, with the two slices in both buffers.
abbrev endpoint : Endpoint
endpoint = record { fd = 5; connection_id = 77; attached = true; listen_port = 8080; ext_info = 0 }

abbrev connection : Option (List ℕ → ℤ) → Connection
connection proto = record {
  endpoint = endpoint;
  rcv_buffer = arrived;
  snd_buffer = arrived;
  handle_id = 1;
  proto = proto;
}

-- A socket that takes up to two bytes at a time.
abbrev two_at_a_time : ℕ → List ℕ → Sent
two_at_a_time i xs = sent (length (take 2 xs))

two_at_a_time-Honest : Honest two_at_a_time
two_at_a_time-Honest i xs n e =
    let same : length (take 2 xs) ≡ n = grind (arith, e) in omega (arith, same, length-take 2 xs)

on_send-SendsPrefix_example :
    SendsPrefix (contents arrived) (on_send (connection none) two_at_a_time)
on_send-SendsPrefix_example =
    on_send-SendsPrefix two_at_a_time two_at_a_time-Honest (connection none) arrived-IsBuffer

-- A connection on which an empty slice has been sent first.
abbrev bare_connection : Connection
bare_connection = record (connection none) {
  snd_buffer = buffer (inlined 0 (replicate 23 0) ∷ []) 0;
}

abbrev reads : List Recv
reads = got (6 ∷ []) ∷ []

reads-Reads : Reads reads
reads-Reads = (omega arith, tt)

on_recv-DeliversPackets_example :
    DeliversPackets (contents arrived ++ 6 ∷ []) (on_recv (connection (some length_check)) reads)
unfolding to_string
on_recv-DeliversPackets_example =
    on_recv-DeliversPackets (connection (some length_check)) length_check reads length_check_early
      refl reads-Reads arrived-IsBuffer (omega arith)

-- More bytes than the first look takes.
abbrev long_slice : Slice
long_slice = refcounted (replicate 1500 1) 0 1500

long_slice-IsValid : IsValid long_slice
long_slice-IsValid =
    window (omega (arith, length-replicate {A = ℕ} 1500 1))
      (omega (arith, length-replicate {A = ℕ} 1500 1))

abbrev long_buffer : SliceBuffer
long_buffer = buffer (long_slice ∷ []) 1500

long_buffer-IsBuffer : IsBuffer long_buffer
unfolding size
long_buffer-IsBuffer = record {
  slices = (long_slice-IsValid, tt);
  counted =
      omega (arith, length-append (to_string long_slice) [], length-to_string long_slice-IsValid);
  fits = omega arith;
}

asks_for_more : (xs : List ℕ) → long_check (take 1024 xs) ≡ pos 0
asks_for_more xs =
    rw (lt→ltb (length (take 1024 xs)) 2000 (omega (arith, length-take 1024 xs))) refl

parsing_protocol-StillRunning_example :
    StillRunning 9 (contents long_buffer) (parsing_protocol long_check 9 long_buffer)
parsing_protocol-StillRunning_example =
    parsing_protocol-StillRunning long_check 9 long_buffer long_buffer-IsBuffer (omega arith)
      (asks_for_more (contents long_buffer))
