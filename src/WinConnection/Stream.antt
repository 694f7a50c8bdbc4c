-- ===== src/WinConnection/Stream.antt =====
-- Posted sends and their completions: the bytes on the wire are those of the messages, in order.
use raptor_lite.Common.{
  ℕ, min, ◌≡◌, Bool, true, false, Option, none, some, List, [], ◌∷◌, ◌++◌, length, take, ◌==◌,
  if◌then◌else◌,
}
use raptor_lite.Slice.{Slice, to_string}
use raptor_lite.Slice.Bytes.{IsValid}
use raptor_lite.SliceBuffer.{SliceBuffer}
use raptor_lite.SliceBuffer.Contents.{contents, IsBuffer}
use raptor_lite.Endpoint.{Endpoint, is_online}
use raptor_lite.WinConnection.{Request, wsa_send, WinConnection, open_connection, post_msg, on_sent}
use raptor_lite.WinConnection.Gather.{joined}

-- A connection with what has been posted and is not completed, and the bytes that went out.
pub record Line : Type 0 where
  pub con : WinConnection
  pub in_flight : Option (List ℕ)
  pub wire : List ℕ

-- A message of the application, or the completion of a send with `n` of its bytes; and whether
-- a post that follows succeeds.
pub data Input : Type 0 where
  message : (posts : List (List ℕ) → Bool) → Slice → Input
  completion : (posts : List (List ℕ) → Bool) (n : ℕ) → Input

-- A `WSASend` that is posted is in flight.
abbrev pub flight_after : Option (List ℕ) → List Request → Bool → Option (List ℕ)
flight_after f (wsa_send fd buffers ∷ rs) ok = if ok then some (joined buffers) else none
flight_after f rs ok = f

abbrev pub posted : Option (List ℕ) → List ℕ → WinConnection × List Request × Bool → Line
posted f wire r = record { con = r.0; in_flight = flight_after f r.1 r.2; wire = wire }

-- A completion tells of no more bytes than were posted. One without bytes is an error, which leaves
-- the connection as it is.
abbrev pub completed_on :
    Line → List ℕ → ℕ → Option (WinConnection × List Request × Bool) → Option Line
completed_on l ys k none = none
completed_on l ys k (some r) = some (if k == 0 then l else posted none (l.wire ++ take k ys) r)

abbrev pub completed : (List (List ℕ) → Bool) → Line → ℕ → Option (List ℕ) → Option Line
completed posts l n none = some l
completed posts l n (some ys) =
    completed_on l ys (min n (length ys)) (on_sent posts l.con (min n (length ys)) l.con.handle_id)

unfoldable pub take_input : Line → Input → Option Line
take_input l (message posts s) = some (posted l.in_flight l.wire (post_msg posts l.con s))
take_input l (completion posts n) = completed posts l n l.in_flight

abbrev pub go_on : (Line → Option Line) → Option Line → Option Line
go_on again none = none
go_on again (some l) = again l

unfoldable pub inputs : List Input → Line → Option Line
unfolding take_input
inputs [] l = some l
inputs (i ∷ is) l = go_on (inputs is) (take_input l i)

-- The bytes of the messages.
abbrev pub accepted : List Input → List ℕ
accepted [] = []
accepted (message posts s ∷ is) = to_string s ++ accepted is
accepted (completion posts n ∷ is) = accepted is

abbrev pub ValidInputs : List Input → Type 0
ValidInputs [] = Unit {0}
ValidInputs (message posts s ∷ is) = IsValid s × ValidInputs is
ValidInputs (completion posts n ∷ is) = ValidInputs is

-- A send is pending exactly if one is in flight, and what is in flight is at the front of the buffer.
abbrev pub Flying : Bool → Option (List ℕ) → List ℕ → Type 0
Flying pending none xs = pending ≡ false
Flying pending (some ys) xs = (pending ≡ true) × (rest : List ℕ) × (ys ++ rest ≡ xs)

pub record Streams (xs : List ℕ) (l : Line) : Type 0 where
  pub buffered : IsBuffer l.con.snd_buffer
  pub order : l.wire ++ contents l.con.snd_buffer ≡ xs
  pub flying : Flying l.con.send_pending l.in_flight (contents l.con.snd_buffer)
  pub online : is_online l.con.endpoint ≡ true

-- A connection that has just been made, with nothing posted.
abbrev pub fresh_line : ℕ → Endpoint → Line
fresh_line counter ep = record { con = (open_connection counter ep).0; in_flight = none; wire = [] }
