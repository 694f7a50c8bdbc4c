-- ===== src/WinExamples.antt =====
-- The theorems on the connection of Windows at concrete inputs.
use raptor_lite.Common.{◌≡◌, refl, true, some, List, [], ◌∷◌, arith}
use raptor_lite.Common.Int.{pos}
use raptor_lite.Slice.{Slice, from_ptr, size}
use raptor_lite.Slice.Bytes.{IsValid}
use raptor_lite.Slice.Build.{from_ptr-to_string}
use raptor_lite.SliceBuffer.{empty_buffer, add_slice}
use raptor_lite.SliceBuffer.Contents.{contents, IsBuffer, empty_buffer-IsBuffer, add_slice-contents}
use raptor_lite.Endpoint.{new_endpoint}
use raptor_lite.Connection.{got, try_again, recv_loop}
use raptor_lite.WinConnection.{WinConnection, open_connection, async_send, read_loop}
use raptor_lite.WinConnection.Gather.{Bounded, async_send-Bounded}
use raptor_lite.WinConnection.Stream.{Input, message, completion}
use raptor_lite.WinConnection.Receiving.{as_linux, read_loop-recv_loop}

abbrev hello : Slice
hello = from_ptr (some (104 ∷ 105 ∷ [])) 2

hello-IsValid : IsValid hello
hello-IsValid = (from_ptr-to_string (104 ∷ 105 ∷ []) 2 (omega arith) (omega arith)).0

-- Two messages; of the bytes of the first, one and then the other goes out.
abbrev talk : List Input
talk =
    message (λ buffers. true) hello
    ∷ message (λ buffers. true) hello
    ∷ completion (λ buffers. true) 1
    ∷ completion (λ buffers. true) 1
    ∷ []

abbrev waiting : WinConnection
waiting = record ((open_connection 1 (new_endpoint 7)).0) {
  snd_buffer = add_slice empty_buffer hello;
}

size-hello : size hello ≡ 2
unfolding from_ptr size
size-hello = refl

waiting-IsBuffer : IsBuffer (add_slice empty_buffer hello)
waiting-IsBuffer =
    (add_slice-contents empty_buffer hello empty_buffer-IsBuffer hello-IsValid
      (omega (arith, size-hello))).0

len-waiting : (add_slice empty_buffer hello).len ≡ 2
unfolding add_slice from_ptr size
len-waiting = refl

async_send-Bounded_example :
    Bounded (contents waiting.snd_buffer) (async_send (λ buffers. true) waiting).1
    × (waiting.send_pending ≡ true → (async_send (λ buffers. true) waiting).1 ≡ [])
async_send-Bounded_example =
    async_send-Bounded (λ buffers. true) waiting waiting-IsBuffer (omega (arith, len-waiting))

read_loop-recv_loop_example :
    as_linux (read_loop (some (λ xs. pos 2)) (got (104 ∷ 105 ∷ []) ∷ try_again ∷ []) empty_buffer)
    ≡ recv_loop (some (λ xs. pos 2)) (got (104 ∷ 105 ∷ []) ∷ try_again ∷ []) empty_buffer
read_loop-recv_loop_example =
    read_loop-recv_loop (some (λ xs. pos 2)) (got (104 ∷ 105 ∷ []) ∷ try_again ∷ []) empty_buffer
