-- ===== src/Connection/Sending.antt =====
-- `OnSend`: what goes out and what stays in the send buffer.
use raptor_lite.Common.{
  Option, some, if◌then◌else◌, ℕ, zero, suc, ◌+◌, ◌≤◌, ◌<◌, ◌≡◌, refl, sym, ap, subst, ◌∙◌, inl,
  inr, Bool, true, List, [], ◌∷◌, ◌++◌, arith, ◌==◌, length, take, drop, length-append, length-drop,
  take-append, take-append-drop, append_assoc, Bool-cases,
}
use raptor_lite.Slice.{Slice, to_string}
use raptor_lite.SliceBuffer.{SliceBuffer, buffer, front, move_header, slice_count}
use raptor_lite.SliceBuffer.Contents.{contents, all_bytes, IsBuffer, front-cons, is_empty-length}
use raptor_lite.SliceBuffer.Header.{Moved, move_header-Moved}
use raptor_lite.Connection.{
  Effect, send_modify, do_send_event, after_sending, Connection, Sent, sent, send_again,
  send_failed, SendRun, stopped, send_faulted, send_fuel, wiring, moved_on, after_send, sending,
  send_loop, on_send, send_msg,
}

-- The socket never says that it took more bytes than it was given.
abbrev pub Honest : (ℕ → List ℕ → Sent) → Type 0
Honest socket = (i : ℕ) (xs : List ℕ) (n : ℕ) → socket i xs ≡ sent n → n ≤ length xs

-- The run ends without a failed assertion, and what went out, followed by what is left, is `xs`.
abbrev pub SendsPrefix : List ℕ → SendRun → Type 0
SendsPrefix xs (stopped r ys b) = IsBuffer b × (ys ++ contents b ≡ xs)
SendsPrefix xs send_faulted = ⊥
SendsPrefix xs send_fuel = ⊥

SendsPrefix-wiring :
    (ys xs : List ℕ) (r : SendRun) → SendsPrefix xs r → SendsPrefix (ys ++ xs) (wiring ys r)
SendsPrefix-wiring ys xs (stopped again zs b) h =
    (h.0, append_assoc ys zs (contents b) ∙ ap (◌++◌ ys) h.1)
SendsPrefix-wiring ys xs send_faulted h = h
SendsPrefix-wiring ys xs send_fuel h = h

module _ (again : SliceBuffer → SendRun) (s : Slice) (vs : List Slice) (len : ℕ)
    (v : IsBuffer (buffer (s ∷ vs) len))
    (goes_on : (b : SliceBuffer)
      → IsBuffer b
      → 0 < slice_count b
      → b.len < len
      → SendsPrefix (contents b) (again b)) where
  moved_on-SendsPrefix :
      (n : ℕ)
      → suc n ≤ len
      → Moved (drop (suc n) (all_bytes (s ∷ vs))) (move_header (buffer (s ∷ vs) len) (suc n))
      → SendsPrefix
          (drop (suc n) (all_bytes (s ∷ vs)))
          (moved_on again (move_header (buffer (s ∷ vs) len) (suc n)))
  unfolding moved_on
  moved_on-SendsPrefix n h (b, e, w, c) =
      rw (e, moved_on)
        (elim (Bool-cases (slice_count b == 0)) [
          | inl empty ↦ rw empty (w, c)
          | inr more ↦
              rw (more, ← c)
                (goes_on b w (ground arith) (
                  omega (
                    arith,
                    v.counted,
                    w.counted,
                    ap length c,
                    length-drop (suc n) (all_bytes (s ∷ vs)),
                  )))
        ])

  after_send-SendsPrefix :
      (r : Sent)
      → ((n : ℕ) → r ≡ sent n → n ≤ length (to_string s))
      → SendsPrefix (all_bytes (s ∷ vs)) (after_send again (buffer (s ∷ vs) len) s r)
  unfolding after_send
  after_send-SendsPrefix send_again honest = (v, refl)
  after_send-SendsPrefix send_failed honest = (v, refl)
  after_send-SendsPrefix (sent zero) honest = (v, refl)
  after_send-SendsPrefix (sent (suc n)) honest =
      let few : suc n ≤ length (to_string s) = honest (suc n) refl in
      let fits : suc n ≤ len =
        omega (arith, v.counted, length-append (to_string s) (all_bytes vs)) in
      let cut : take (suc n) (all_bytes (s ∷ vs)) ≡ take (suc n) (to_string s) =
        take-append (suc n) (to_string s) (all_bytes vs) few in
      subst
        (λ (xs : List ℕ). SendsPrefix xs (
          wiring (take (suc n) (to_string s))
            (moved_on again (move_header (buffer (s ∷ vs) len) (suc n)))))
        (ap (λ (ys : List ℕ). ys ++ drop (suc n) (all_bytes (s ∷ vs))) (sym cut)
          ∙ take-append-drop (suc n) (all_bytes (s ∷ vs)))
        (SendsPrefix-wiring (take (suc n) (to_string s)) (drop (suc n) (all_bytes (s ∷ vs))) _
          (moved_on-SendsPrefix n fits (move_header-Moved (buffer (s ∷ vs) len) (suc n) v fits)))

module _ (socket : ℕ → List ℕ → Sent) (honest : Honest socket) where
  send_loop-SendsPrefix :
      (k i : ℕ) (b : SliceBuffer)
      → IsBuffer b
      → 0 < slice_count b
      → b.len < k
      → SendsPrefix (contents b) (send_loop socket k i b)
  unfolding send_loop sending
  send_loop-SendsPrefix zero i b v some_slice fuel = absurd (omega arith)
  send_loop-SendsPrefix (suc k) i b v some_slice fuel =
      by_vector b.vs b.len v some_slice fuel
        (λ b' w c lt. send_loop-SendsPrefix k (i + 1) b' w c lt)
    where
      by_vector :
          (vs : List Slice) (len : ℕ)
          → IsBuffer (buffer vs len)
          → 0 < length vs
          → len < suc k
          → ((b' : SliceBuffer)
              → IsBuffer b'
              → 0 < slice_count b'
              → b'.len < k
              → SendsPrefix (contents b') (send_loop socket k (i + 1) b'))
          → SendsPrefix (all_bytes vs) (
              sending
                (send_loop socket k (i + 1))
                (buffer vs len)
                (socket i)
                (front (buffer vs len)))
      by_vector [] len w one few ih = absurd (omega arith)
      by_vector (s ∷ vs) len w one few ih =
          rw (front-cons s vs len, sending)
            (after_send-SendsPrefix (send_loop socket k (i + 1)) s vs len w
              (λ b' w' c lt. ih b' w' c (omega arith)) (socket i (to_string s))
              (λ n e. honest i (to_string s) n e))

  -- Whatever an honest socket answers, `OnSend` ends: the bytes that it wrote, followed by the bytes
  -- left in the send buffer, are the bytes that were in it, and the buffer stays well formed.
  pub on_send-SendsPrefix :
      (c : Connection)
      → IsBuffer c.snd_buffer
      → SendsPrefix (contents c.snd_buffer) (on_send c socket)
  unfolding on_send
  on_send-SendsPrefix c v = elim (Bool-cases (length c.snd_buffer.vs == 0)) [
    | inl none_left ↦ rw (is_empty-length c.snd_buffer, none_left) (v, refl)
    | inr some_left ↦
        rw (is_empty-length c.snd_buffer, some_left)
          (send_loop-SendsPrefix (suc c.snd_buffer.len) 0 c.snd_buffer v (ground arith)
            (omega arith))
  ]

-- `SendMsg` for each slice in turn.
abbrev pub send_all : Connection → List Slice → Connection
send_all c [] = c
send_all c (s ∷ ss) = send_all (send_msg c s).0 ss

-- What `DoSendEvent` leaves of a connection.
pub record SendDone (c : Connection) (r : Option (Connection × List Effect × Bool)) : Type 0 where
  pub after : Connection
  pub effects : List Effect
  pub returns : r ≡ some (after, effects, true)
  pub same_endpoint : after.endpoint ≡ c.endpoint
  pub same_proto : after.proto ≡ c.proto
  pub same_received : after.rcv_buffer ≡ c.rcv_buffer
  pub buffered : IsBuffer after.snd_buffer

after_sending-SendDone :
    (c : Connection) (xs : List ℕ) (r : SendRun) → SendsPrefix xs r → SendDone c (after_sending c r)
unfolding after_sending
after_sending-SendDone c xs (stopped again ys b) p = record {
  after = record c { snd_buffer = b };
  effects = if again then send_modify c.endpoint.fd c.endpoint.connection_id ∷ [] else [];
  returns = refl;
  same_endpoint = refl;
  same_proto = refl;
  same_received = refl;
  buffered = p.0;
}
after_sending-SendDone c xs send_faulted p = absurd p
after_sending-SendDone c xs send_fuel p = absurd p

pub do_send_event-SendDone :
    (c : Connection) (socket : ℕ → List ℕ → Sent)
    → Honest socket
    → IsBuffer c.snd_buffer
    → SendDone c (do_send_event c socket)
unfolding do_send_event
do_send_event-SendDone c socket honest v =
    after_sending-SendDone c (contents c.snd_buffer) (on_send c socket)
      (on_send-SendsPrefix socket honest c v)
