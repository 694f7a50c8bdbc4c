-- ===== src/WinConnector/Dangling.antt =====
-- What follows a `ConnectEx` that fails at once.
use raptor_lite.Common.{ℕ, ◌≡◌, refl, false, none, some, List, ◌∷◌, ==_self}
use raptor_lite.Common.Int.{negsuc}
use raptor_lite.Address.{ResolvedAddress}
use raptor_lite.Sockets.{Os, Trace, posix, poll_add, connect_ex, call}
use raptor_lite.Sockets.Opened.{without, opened}
use raptor_lite.WinConnector.{
  Heap, store, WinConnector, begun, after_connect_ex, start_connecting, close_records,
  shutdown_connector,
}

module _ (os : Os) where
  missing_first :
      (h : Heap) (id : ℕ) (ids : List ℕ) (t : Trace)
      → h id ≡ none
      → close_records os h (id ∷ ids) t ≡ none
  unfolding close_records
  missing_first h id ids t e = rw (e, close_records) refl

  -- If `ConnectEx` fails at once, with another error than ERROR_IO_PENDING: the error is reported and the
  -- socket closed, while the deleted record stays in the set; a `Shutdown` of the connector, if it runs,
  -- then reads that record.
  pub connect-shutdown :
      (id fd user : ℕ) (mapped : ResolvedAddress) (s : WinConnector) (t : Trace) (n : ℕ)
      → s.is_shut ≡ false
      → os.answer (call os (poll_add fd) t).1 (connect_ex fd mapped) ≡ negsuc n
      → let r = start_connecting os false id fd user mapped s t in
        (r.0.1 ≡ some (posix (connect_ex fd mapped)))
        × (opened r.1 ≡ without fd (opened t))
        × ((u : Trace) → shutdown_connector os r.0.0 u ≡ none)
  unfolding start_connecting after_connect_ex shutdown_connector call
  connect-shutdown id fd user mapped s t n runs fails =
      rw (fails, runs)
        (
          refl,
          refl,
          λ u.
              rw
                (missing_first (store (begun os id fd user mapped s).heap id none) id s.records u
                  (rw (==_self id) refl))
                refl,
        )
