-- ===== src/SocketExamples.antt =====
-- The theorems on sockets, listeners, connectors and the making of a container at concrete inputs.
use Prim.Native.String.{String}
use raptor_lite.Common.{times, ℕ, ◌≡◌, ◌≢◌, true, false, some, List, [], ◌∷◌, arith}
use raptor_lite.Common.Int.{ℤ, pos}
use raptor_lite.Address.{ResolvedAddress, resolved, in4, sockaddr_in_size}
use raptor_lite.Property.{Property}
use raptor_lite.Surface.{App, Threads}
use raptor_lite.Sockets.{
  Trace, Call, open_socket, get_option, accept_on, Os, tcp_client_prepare_socket,
}
use raptor_lite.Sockets.Opened.{opened, ClientOpens, client_socket-ClientOpens}
use raptor_lite.Connector.{in_progress}
use raptor_lite.Connector.Owned.{
  World, world, Owned, Move, connects, event, moves, move, moves-Owned,
}
use raptor_lite.Listener.Owned.{Door, door, Held, Use, listens, accepts, uses, use_door, uses-Held}

-- A system where all calls succeed, each socket is 7, and each accepted connection 9.
abbrev answers : Trace → Call → ℤ
answers t (open_socket f) = pos 7
answers t (accept_on fd) = pos 9
answers t (get_option fd opt) = pos 1
answers t c = pos 0

abbrev local : ResolvedAddress
local = resolved (in4 20480 (127 ∷ 0 ∷ 0 ∷ 1 ∷ [])) sockaddr_in_size

abbrev system : Os
system = record { answer = answers; bound_to = λ t fd. local }

never_zero : (t : Trace) (f : ℕ) → system.answer t (open_socket f) ≢ pos 0
never_zero t f e = grind (arith, e)

never_accepts_zero : (t : Trace) (fd : ℕ) → system.answer t (accept_on fd) ≢ pos 0
never_accepts_zero t fd e = grind (arith, e)

client_socket-ClientOpens_example :
    ClientOpens system never_zero [] (tcp_client_prepare_socket system local (pos 0) [])
client_socket-ClientOpens_example = client_socket-ClientOpens system never_zero local (pos 0) []

-- A connector that runs; a connection is made, and the application has it.
abbrev running : World
running = world (record { records = []; is_shut = false; user_timeout = pos 0 }) [] []

running-Owned : Owned running
running-Owned n = omega arith

abbrev connection_made : List Move
connection_made = connects 1 in_progress (some (local ∷ [])) 3 5 ∷ event 3 true true [] ∷ []

moves-Owned_example :
    Owned (moves system connection_made running)
    × ((moves system connection_made running).con.is_shut ≡ false
        → (n : ℕ)
        → times n (opened (move system (moves system connection_made running) Move.shuts).trace)
          ≡ times n (moves system connection_made running).handed)
moves-Owned_example = moves-Owned system never_zero connection_made running running-Owned

abbrev shop : Door
shop = door (record { nodes = []; is_shut = false }) [] []

shop-Held : Held shop
shop-Held n = omega arith

abbrev one_customer : List Use
one_customer = listens 3 local ∷ accepts 3 false true [] ∷ []

uses-Held_example :
    Held (uses system (λ p. p) one_customer shop)
    × ((uses system (λ p. p) one_customer shop).listener.is_shut ≡ false
        → (n : ℕ)
        → times n (
            opened
              (use_door system (λ p. p) (uses system (λ p. p) one_customer shop) Use.shuts).trace)
          ≡ times n (uses system (λ p. p) one_customer shop).handed)
uses-Held_example =
    uses-Held system (λ p. p) never_zero never_accepts_zero one_customer shop shop-Held

abbrev table : Property
table = ("MessageHandler", 5) ∷ []

abbrev app : App
app = record { check = λ handler xs. pos 1; interval = λ handler. 1000 }

abbrev threads : Threads
threads = record { poll = λ n. true; back = λ n. true; timer = true; mq = λ i. true }
