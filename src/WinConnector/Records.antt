-- ===== src/WinConnector/Records.antt =====
-- The records of a Windows connector, the sockets in them, and what is asked of a connector.
use raptor_lite.Common.{
  ℕ, ◌+◌, ◌≤◌, ◌≡◌, refl, sym, ap, ◌∙◌, Bool, true, false, Option, none, some, List, [], ◌∷◌, ◌==◌,
  eq_of_==, inl, inr, Bool-cases, one, times, one_apart, one_sym, arith,
}
use raptor_lite.Address.{ResolvedAddress}
use raptor_lite.Property.{Property}
use raptor_lite.Sockets.{Trace}
use raptor_lite.Sockets.Opened.{opened}
use raptor_lite.Connector.{Notice, connected, error_occurred}
use raptor_lite.WinConnector.{Entry, Heap, store, WinConnector, erase}

abbrev pub cons_fd : Option Entry → List ℕ → List ℕ
cons_fd none fds = fds
cons_fd (some e) fds = e.fd ∷ fds

-- The sockets of the records.
abbrev pub fds_of : Heap → List ℕ → List ℕ
fds_of h [] = []
fds_of h (id ∷ ids) = cons_fd (h id) (fds_of h ids)

abbrev pub Live : Heap → List ℕ → Type 0
Live h [] = Unit {0}
Live h (id ∷ ids) = ((e : Entry) × (h id ≡ some e)) × Live h ids

-- A connector with what has been called and the sockets that others have, those that the application was
-- told of among them.
pub record World : Type 0 where
  pub con : WinConnector
  pub trace : Trace
  pub handed : List ℕ

abbrev pub world : WinConnector → Trace → List ℕ → World
world con trace handed = record { con = con; trace = trace; handed = handed }

-- The records of the set are allocated and no two the same, and every open socket is in one of them, or
-- with others, and just once.
pub record Owns (w : World) : Type 0 where
  pub live : Live w.con.heap w.con.records
  pub apart : (n : ℕ) → times n w.con.records ≤ 1
  pub owned :
      (n : ℕ)
      → times n (opened w.trace) ≡ times n (fds_of w.con.heap w.con.records) + times n w.handed

pub data Move : Type 0 where
  connects : (pending : Bool) (resolved : Option (List ResolvedAddress)) (id user : ℕ) → Move
  completes : (is_error online : Bool) (id : ℕ) → Property → Move
  shuts : Move

abbrev pub told_of : List Notice → List ℕ → List ℕ
told_of [] handed = handed
told_of (connected fd user ∷ ns) handed = fd ∷ told_of ns handed
told_of (error_occurred fd ∷ ns) handed = fd ∷ told_of ns handed

abbrev pub after_event : World → Option ((WinConnector × List Notice) × Trace) → Option World
after_event w none = none
after_event w (some r) = some (world r.0.0 r.1 (told_of r.0.1 w.handed))

abbrev pub after_shutdown : World → Option (WinConnector × Trace) → Option World
after_shutdown w none = none
after_shutdown w (some r) = some (world r.0 r.1 w.handed)

-- A new record is not at an address in use, `ConnectEx` fails only with ERROR_IO_PENDING, and completions
-- are those of records in the set.
abbrev pub Allows : World → Move → Type 0
Allows w (connects pending resolved id user) = (pending ≡ true) × (w.con.heap id ≡ none)
Allows w (completes is_error online id p) = 1 ≤ times id w.con.records
Allows w shuts = Unit {0}

abbrev pub InResult : (World → Type 0) → Option World → Type 0
InResult P none = Unit {0}
InResult P (some w) = P w

pub fds_store :
    (h : Heap) (id : ℕ) (v : Option Entry) (ids : List ℕ)
    → times id ids ≡ 0
    → fds_of (store h id v) ids ≡ fds_of h ids
fds_store h id v [] k = refl
fds_store h id v (j ∷ ids) k =
    let other : (j == id) ≡ false = one_apart j id (omega (arith, k, one_sym j id)) in
    rw (other, fds_store h id v ids (omega (arith, k))) refl

pub Live-store :
    (h : Heap) (id : ℕ) (v : Option Entry) (ids : List ℕ)
    → times id ids ≡ 0
    → Live h ids
    → Live (store h id v) ids
Live-store h id v [] k l = tt
Live-store h id v (j ∷ ids) k ((e, at), l) =
    let other : (j == id) ≡ false = one_apart j id (omega (arith, k, one_sym j id)) in
    ((e, rw other at), Live-store h id v ids (omega (arith, k)) l)

-- An address that is not in use is in no record.
pub unused : (h : Heap) (id : ℕ) (ids : List ℕ) → h id ≡ none → Live h ids → times id ids ≡ 0
unused h id [] f l = refl
unused h id (j ∷ ids) f ((e, at), l) = elim (Bool-cases (id == j)) [
  | inl same ↦ let clash : some e ≡ none = sym at ∙ sym (ap h (eq_of_== id j same)) ∙ f in cc clash
  | inr ne ↦ rw ne (omega (arith, unused h id ids f l))
]

-- The record of a completion leaves the set, with its socket.
pub record Erased (h : Heap) (id : ℕ) (ids : List ℕ) (e : Entry) : Type 0 where
  pub there : (erase id ids).1 ≡ true
  pub fewer : (n : ℕ) → times n ids ≡ one n id + times n (erase id ids).0
  pub sockets : (n : ℕ) → times n (fds_of h ids) ≡ one n e.fd + times n (fds_of h (erase id ids).0)
  pub still : Live h (erase id ids).0

pub times_cons :
    (n : ℕ) (o : Option Entry) (e : Entry) (fds : List ℕ)
    → o ≡ some e
    → times n (cons_fd o fds) ≡ one n e.fd + times n fds
times_cons n o e fds at = rw at refl

pub erase-Erased :
    (h : Heap) (id : ℕ) (ids : List ℕ) (e : Entry)
    → h id ≡ some e
    → 1 ≤ times id ids
    → Live h ids
    → Erased h id ids e
unfolding erase
erase-Erased h id [] e at k l = absurd (omega (arith, k))
erase-Erased h id (j ∷ ids) e at k ((f, here), l) = elim (Bool-cases (id == j)) [
  | inl same ↦
      let eq : id ≡ j = eq_of_== id j same in
      record {
        there = rw same refl;
        fewer = rw same (λ n. ap (λ (m : ℕ). one n m + times n ids) (sym eq));
        sockets = rw same (λ n. times_cons n (h j) e (fds_of h ids) (ap h (sym eq) ∙ at));
        still = rw same l;
      }
  | inr ne ↦
      let r = erase-Erased h id ids e at (omega (arith, k, no_more ne)) l in
      record {
        there = rw ne r.there;
        fewer = rw ne (λ n. omega (arith, r.fewer n));
        sockets = rw ne (λ n. omega (
          arith,
          times_cons n (h j) f (fds_of h ids) here,
          times_cons n (h j) f (fds_of h (erase id ids).0) here,
          r.sockets n,
        ));
        still = rw ne ((f, here), r.still);
      }
]
  where
    no_more : (id == j) ≡ false → one id j ≡ 0
    no_more ne = rw ne refl

-- A record of the set is allocated.
pub found :
    (h : Heap) (id : ℕ) (ids : List ℕ)
    → Live h ids
    → 1 ≤ times id ids
    → (e : Entry) × (h id ≡ some e)
found h id [] l k = absurd (omega (arith, k))
found h id (j ∷ ids) ((e, at), l) k = elim (Bool-cases (id == j)) [
  | inl same ↦ (e, ap h (eq_of_== id j same) ∙ at)
  | inr ne ↦ found h id ids l (omega (arith, k, apart ne))
]
  where
    apart : (id == j) ≡ false → one id j ≡ 0
    apart ne = rw ne refl
