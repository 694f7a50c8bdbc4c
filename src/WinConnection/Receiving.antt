-- ===== src/WinConnection/Receiving.antt =====
-- Both back ends read, parse and deliver alike.
use raptor_lite.Common.{
  ℕ, suc, ◌≡◌, refl, ap, ◌∙◌, Bool, true, false, Option, none, some, List, [], ◌∷◌, ◌==◌, length,
  inl, inr, Bool-cases,
}
use raptor_lite.Common.Int.{ℤ}
use raptor_lite.Slice.{Slice, from_ptr}
use raptor_lite.SliceBuffer.{SliceBuffer, add_slice}
use raptor_lite.Protocol.{Parsed, parsed, protocol_error, broken, out_of_fuel}
use raptor_lite.Connection.{
  Recv, got, peer_closed, try_again, recv_failed, recv_space, RecvRun, returned, starved, faulted,
  hung, delivering, after_parse, take_in, next_read, recv_loop,
}
use raptor_lite.WinConnection.{
  Leave, at_end, would_block, failed, WinRun, left, ran_out, faulted_in, hung_in, handing,
  parsed_on, read_on, more_after, read_loop, parsing_packets,
}

-- What a run on Windows is on Linux: there, no difference is made between the two good ends.
abbrev pub goes_well : Leave → Bool
goes_well at_end = true
goes_well would_block = true
goes_well failed = false

abbrev pub as_linux : WinRun → RecvRun
as_linux (left how ds b) = returned (goes_well how) ds b
as_linux ran_out = starved
as_linux faulted_in = faulted
as_linux hung_in = hung

as_linux-handing :
    (ds : List Slice) (r : WinRun) → as_linux (handing ds r) ≡ delivering ds (as_linux r)
as_linux-handing ds (left how es b) = refl
as_linux-handing ds ran_out = refl
as_linux-handing ds faulted_in = refl
as_linux-handing ds hung_in = refl

module _ (again : SliceBuffer → WinRun) (linux : SliceBuffer → RecvRun)
    (same : (b : SliceBuffer) → as_linux (again b) ≡ linux b) where
  parsed_on_lem : (p : Parsed) → as_linux (parsed_on again p) ≡ after_parse linux p
  unfolding parsed_on after_parse
  parsed_on_lem (parsed ds b) = as_linux-handing ds (again b) ∙ ap (delivering ds) (same b)
  parsed_on_lem (protocol_error ds b) = refl
  parsed_on_lem broken = refl
  parsed_on_lem (out_of_fuel ds b) = refl

  read_on_lem :
      (proto : Option (List ℕ → ℤ)) (b : SliceBuffer) (s : Slice)
      → as_linux (read_on proto again b s) ≡ take_in proto linux b s
  unfolding read_on take_in
  read_on_lem none b s = as_linux-handing (s ∷ []) (again b) ∙ ap (delivering (s ∷ [])) (same b)
  read_on_lem (some check) b s =
      parsed_on_lem (parsing_packets check (suc (add_slice b s).len) (add_slice b s))

  more_after_lem : (n : ℕ) (b : SliceBuffer) → as_linux (more_after n again b) ≡ next_read n linux b
  more_after_lem n b = elim (Bool-cases (n == recv_space)) [
    | inl e ↦ rw e (same b)
    | inr e ↦ rw e refl
  ]

-- For the same reads and the same protocol, the loop of `OnRecvEvent` of Windows delivers the packets and
-- leaves the receive buffer that the loop of `OnRecv` of Linux does, and it succeeds where that one does.
pub read_loop-recv_loop :
    (proto : Option (List ℕ → ℤ)) (rs : List Recv) (b : SliceBuffer)
    → as_linux (read_loop proto rs b) ≡ recv_loop proto rs b
unfolding read_loop recv_loop
read_loop-recv_loop proto [] b = refl
read_loop-recv_loop proto (peer_closed ∷ rs) b = refl
read_loop-recv_loop proto (try_again ∷ rs) b = refl
read_loop-recv_loop proto (recv_failed ∷ rs) b = refl
read_loop-recv_loop proto (got xs ∷ rs) b =
    read_on_lem (more_after (length xs) (read_loop proto rs))
      (next_read (length xs) (recv_loop proto rs))
      (λ b'.
        more_after_lem (read_loop proto rs) (recv_loop proto rs)
          (λ b''. read_loop-recv_loop proto rs b'') (length xs) b')
      proto b (from_ptr (some xs) (length xs))
