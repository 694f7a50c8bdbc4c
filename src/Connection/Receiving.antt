-- ===== src/Connection/Receiving.antt =====
-- `OnRecv`: what is delivered to the service and what stays in the receive buffer.
use raptor_lite.Common.{
  ℕ, suc, ◌+◌, ◌≤◌, ◌<◌, ◌^◌, ◌≡◌, ◌≢◌, refl, sym, ap, subst, ◌∙◌, inl, inr, true, none, some, List,
  [], ◌∷◌, ◌++◌, arith, ◌==◌, if◌then◌else◌, length, length-append, take_all, append_assoc,
  Bool-cases, eq_of_==, ==_iff,
}
use raptor_lite.Common.Int.{ℤ}
use raptor_lite.Slice.{Slice, size, to_string, from_ptr}
use raptor_lite.Slice.Bytes.{IsValid, length-to_string}
use raptor_lite.Slice.Build.{from_ptr-to_string}
use raptor_lite.SliceBuffer.{SliceBuffer, add_slice}
use raptor_lite.SliceBuffer.Contents.{
  contents, all_bytes, all_bytes-append, IsBuffer, add_slice-contents,
}
use raptor_lite.Protocol.{Parsed, parsed, protocol_error, broken, out_of_fuel, parsing_protocol}
use raptor_lite.Protocol.Split.{unfinished}
use raptor_lite.Protocol.Refine.{
  view, DecidesEarly, Keeps, parsing_protocol-Keeps, parsing_protocol-frames,
}
use raptor_lite.Connection.{
  Connection, Recv, got, peer_closed, try_again, recv_failed, recv_space, RecvRun, returned,
  starved, faulted, hung, delivering, after_parse, take_in, next_read, recv_loop, on_recv,
}

-- The bytes that the loop reads: a read that fills the space is followed by another.
abbrev pub taken : List Recv → List ℕ
taken [] = []
taken (got xs ∷ rs) = xs ++ (if length xs == recv_space then taken rs else [])
taken (peer_closed ∷ rs) = []
taken (try_again ∷ rs) = []
taken (recv_failed ∷ rs) = []

-- The results that a socket gives: at most the space, and an end.
abbrev pub Reads : List Recv → Type 0
Reads [] = ⊥
Reads (got xs ∷ rs) =
    (length xs ≤ recv_space) × (if length xs == recv_space then Reads rs else Unit {0})
Reads (peer_closed ∷ rs) = Unit {0}
Reads (try_again ∷ rs) = Unit {0}
Reads (recv_failed ∷ rs) = Unit {0}

taken_full :
    (xs : List ℕ) (rs : List Recv) → length xs ≡ recv_space → taken (got xs ∷ rs) ≡ xs ++ taken rs
taken_full xs rs e =
    let test : (length xs == recv_space) ≡ true = (==_iff (length xs) recv_space).1 e in
    rw test refl

-- With no protocol: the run returns, what is delivered is `xs`, and the receive buffer is `b`.
abbrev pub DeliversAll : List ℕ → SliceBuffer → RecvRun → Type 0
DeliversAll xs b (returned ok ds b') = (all_bytes ds ≡ xs) × (b' ≡ b)
DeliversAll xs b starved = ⊥
DeliversAll xs b faulted = ⊥
DeliversAll xs b hung = ⊥

DeliversAll-delivering :
    (s : Slice) (xs : List ℕ) (b : SliceBuffer) (r : RecvRun)
    → DeliversAll xs b r
    → DeliversAll (to_string s ++ xs) b (delivering (s ∷ []) r)
DeliversAll-delivering s xs b (returned ok ds b') h = (ap (◌++◌ (to_string s)) h.0, h.1)
DeliversAll-delivering s xs b starved h = h
DeliversAll-delivering s xs b faulted h = h
DeliversAll-delivering s xs b hung h = h

-- A read gives a valid slice with its bytes.
read_slice :
    (xs : List ℕ)
    → length xs ≤ recv_space
    → IsValid (from_ptr (some xs) (length xs)) × (to_string (from_ptr (some xs) (length xs)) ≡ xs)
read_slice xs h =
    let (v, e) = from_ptr-to_string xs (length xs) (omega arith) (omega arith) in
    (v, e ∙ take_all (length xs) xs (omega arith))

-- The test behind a read, where the rest of the loop satisfies `P`.
next_read_lem :
    (P : List ℕ → RecvRun → Type 0) (xs : List ℕ) (rs : List Recv) (rest : SliceBuffer → RecvRun)
    (b : SliceBuffer)
    → (length xs ≡ recv_space → Reads rs → P (taken rs) (rest b))
    → P [] (returned true [] b)
    → (if length xs == recv_space then Reads rs else Unit {0})
    → P (if length xs == recv_space then taken rs else []) (next_read (length xs) rest b)
next_read_lem P xs rs rest b full short h = elim (Bool-cases (length xs == recv_space)) [
  | inl e ↦ rw e (full (eq_of_== (length xs) recv_space e) (rw e at h))
  | inr e ↦ rw e short
]

recv_loop-DeliversAll :
    (rs : List Recv) (b : SliceBuffer) → Reads rs → DeliversAll (taken rs) b (recv_loop none rs b)
unfolding recv_loop take_in
recv_loop-DeliversAll [] b h = h
recv_loop-DeliversAll (peer_closed ∷ rs) b h = (refl, refl)
recv_loop-DeliversAll (try_again ∷ rs) b h = (refl, refl)
recv_loop-DeliversAll (recv_failed ∷ rs) b h = (refl, refl)
recv_loop-DeliversAll (got xs ∷ rs) b h =
    let (v, e) = read_slice xs h.0 in
    subst
      (λ (ys : List ℕ).
        DeliversAll (ys ++ (if length xs == recv_space then taken rs else [])) b
          (recv_loop none (got xs ∷ rs) b))
      e
      (DeliversAll-delivering (from_ptr (some xs) (length xs)) _ b _ (
        next_read_lem (λ ys r. DeliversAll ys b r) xs rs (recv_loop none rs) b
          (λ full reads. recv_loop-DeliversAll rs b reads) (refl, refl) (h.1)))

-- Without a protocol handler, what one `OnRecv` delivers is what it read, in order and complete,
-- and the receive buffer is not touched.
pub on_recv-DeliversAll :
    (c : Connection) (rs : List Recv)
    → c.proto ≡ none
    → Reads rs
    → DeliversAll (taken rs) c.rcv_buffer (on_recv c rs)
unfolding on_recv
on_recv-DeliversAll c rs e h = rw e (recv_loop-DeliversAll rs c.rcv_buffer h)

-- With a protocol: the run returns, and what is delivered, what is left in the buffer and what a
-- failed parse keeps unread make up `xs`. Nothing is unread if 0 is returned.
abbrev pub DeliversPackets : List ℕ → RecvRun → Type 0
DeliversPackets xs (returned ok ds b) =
    IsBuffer b
    × (unread : List ℕ) × (all_bytes ds ++ (contents b ++ unread) ≡ xs)
    × (ok ≡ true → unread ≡ [])
DeliversPackets xs starved = ⊥
DeliversPackets xs faulted = ⊥
DeliversPackets xs hung = ⊥

DeliversPackets-delivering :
    (ds : List Slice) (xs : List ℕ) (r : RecvRun)
    → DeliversPackets xs r
    → DeliversPackets (all_bytes ds ++ xs) (delivering ds r)
DeliversPackets-delivering ds xs (returned ok es b) (v, unread, e, full) = (
  v,
  unread,
  rw (all_bytes-append ds es) (append_assoc (all_bytes ds) (all_bytes es) (contents b ++ unread))
      ∙ ap (◌++◌ (all_bytes ds)) e,
  full,
)
DeliversPackets-delivering ds xs starved h = h
DeliversPackets-delivering ds xs faulted h = h
DeliversPackets-delivering ds xs hung h = h

-- A parse that ends, and then the rest of the loop.
after_parse-DeliversPackets :
    (again : SliceBuffer → RecvRun) (p : Parsed) (xs ys : List ℕ)
    → Keeps xs p
    → view p ≢ unfinished
    → ((b : SliceBuffer)
        → IsBuffer b
        → length (contents b) ≤ length xs
        → DeliversPackets (contents b ++ ys) (again b))
    → DeliversPackets (xs ++ ys) (after_parse again p)
unfolding after_parse
after_parse-DeliversPackets again (parsed ds b) xs ys k fin rest =
    subst (λ (zs : List ℕ). DeliversPackets zs (delivering ds (again b)))
      (sym (append_assoc (all_bytes ds) (contents b) ys) ∙ ap (λ (zs : List ℕ). zs ++ ys) k.1)
      (DeliversPackets-delivering ds (contents b ++ ys) (again b)
        (rest b k.0 (omega (arith, ap length k.1, length-append (all_bytes ds) (contents b)))))
after_parse-DeliversPackets again (protocol_error ds b) xs ys k fin rest = (
  k.0,
  ys,
  sym (append_assoc (all_bytes ds) (contents b) ys) ∙ ap (λ (zs : List ℕ). zs ++ ys) k.1,
  λ e. cc,
)
after_parse-DeliversPackets again broken xs ys k fin rest = absurd (fin refl)
after_parse-DeliversPackets again (out_of_fuel ds b) xs ys k fin rest = absurd (fin refl)

module _ (check : List ℕ → ℤ) (early : DecidesEarly check) where
  recv_loop-DeliversPackets :
      (rs : List Recv) (b : SliceBuffer)
      → Reads rs
      → IsBuffer b
      → length (contents b) + length (taken rs) < 2 ^ 64
      → DeliversPackets (contents b ++ taken rs) (recv_loop (some check) rs b)
  unfolding recv_loop take_in
  recv_loop-DeliversPackets [] b h v room = h
  recv_loop-DeliversPackets (peer_closed ∷ rs) b h v room = (v, [], refl, λ e. refl)
  recv_loop-DeliversPackets (try_again ∷ rs) b h v room = (v, [], refl, λ e. refl)
  recv_loop-DeliversPackets (recv_failed ∷ rs) b h v room = (v, [], refl, λ e. refl)
  recv_loop-DeliversPackets (got xs ∷ rs) b h v room =
      let s = from_ptr (some xs) (length xs) in
      let tail : List ℕ = if length xs == recv_space then taken rs else [] in
      let (sv, se) = read_slice xs h.0 in
      let total : length (taken (got xs ∷ rs)) ≡ length xs + length tail = length-append xs tail in
      let z : size s ≡ length xs = sym (length-to_string sv) ∙ ap length se in
      let (w, c) = add_slice-contents b s v sv (omega (arith, v.counted)) in
      let c' : contents (add_slice b s) ≡ contents b ++ xs = c ∙ ap (◌++◌ (contents b)) se in
      let grown : length (contents (add_slice b s)) ≡ length (contents b) + length xs =
        ap length c' ∙ length-append (contents b) xs in
      subst (λ (ys : List ℕ). DeliversPackets ys (recv_loop (some check) (got xs ∷ rs) b))
        (ap (λ (ys : List ℕ). ys ++ tail) c' ∙ append_assoc (contents b) xs tail)
        (after_parse-DeliversPackets (next_read (length xs) (recv_loop (some check) rs))
          (parsing_protocol check (suc (add_slice b s).len) (add_slice b s))
          (contents (add_slice b s)) tail
          (parsing_protocol-Keeps check (suc (add_slice b s).len) (add_slice b s) w)
          ((parsing_protocol-frames check early (suc (add_slice b s).len) (add_slice b s) w
            (omega arith)).1)
          (λ b' w' le.
            next_read_lem (λ ys r. DeliversPackets (contents b' ++ ys) r) xs rs
              (recv_loop (some check) rs) b'
              (λ full reads.
                recv_loop-DeliversPackets rs b' reads w'
                  (omega (arith, ap length (taken_full xs rs full), length-append xs (taken rs))))
              (w', [], refl, λ e. refl) (h.1)))

-- With a protocol handler that decides from the first 1024 bytes, `OnRecv` returns: the packets it
-- delivers, followed by the receive buffer that it leaves and by what a protocol error keeps
-- unread, are the bytes that were in the buffer and those read, in order. If it returns 0, all that
-- was read is delivered or buffered.
pub on_recv-DeliversPackets :
    (c : Connection) (check : List ℕ → ℤ) (rs : List Recv)
    → DecidesEarly check
    → c.proto ≡ some check
    → Reads rs
    → IsBuffer c.rcv_buffer
    → length (contents c.rcv_buffer) + length (taken rs) < 2 ^ 64
    → DeliversPackets (contents c.rcv_buffer ++ taken rs) (on_recv c rs)
unfolding on_recv
on_recv-DeliversPackets c check rs early e h v room =
    rw e (recv_loop-DeliversPackets check early rs c.rcv_buffer h v room)
