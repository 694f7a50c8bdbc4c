-- ===== src/WinListener/Stopping.antt =====
-- `Shutdown` of a Windows listener: it takes entries from a copy of the head of a ring.
use raptor_lite.Common.{
  ℕ, zero, suc, ◌+◌, ◌<◌, ◌≡◌, refl, ap, ◌∙◌, Bool, false, Option, none, some, List, [], ◌∷◌, ◌==◌,
  ==_self, if◌then◌else◌, inl, inr, Bool-cases, length, one, times, one_apart, one_sym, arith,
}
use raptor_lite.ListEntry.{Store, set_next, set_prev, list_pop_back}
use raptor_lite.ListEntry.Ring.{Chain, IsRing}
use raptor_lite.Sockets.{Os, Trace, call, close_fd, poll_remove}
use raptor_lite.WinListener.{
  AcceptObject, ListenInfo, Objects, store, WinListener, copy_entry, returned, faulted,
  close_socket,
}
use raptor_lite.WinListener.Running.{
  Drained, bad_delete, popped, delete_popped, drain, drain_heads, when_emptied, shut_run,
  shutdown_listener,
}

-- The last of the entries, of which the list begins with the last.
abbrev top : ℕ → List ℕ → ℕ
top head [] = head
top head (y ∷ rs) = y

-- The links back through the entries `rs`, from the last one, to `head`.
abbrev Back : Store → ℕ → List ℕ → Type 0
Back s head [] = Unit {0}
Back s head (y ∷ rs) = (s.prev y ≡ top head rs) × Back s head rs

abbrev onto : List ℕ → List ℕ → List ℕ
onto [] rs = rs
onto (x ∷ xs) rs = onto xs (x ∷ rs)

times-onto : (n : ℕ) (xs rs : List ℕ) → times n (onto xs rs) ≡ times n xs + times n rs
times-onto n [] rs = omega arith
times-onto n (x ∷ xs) rs = omega (arith, times-onto n xs (x ∷ rs))

length-onto : (xs rs : List ℕ) → length (onto xs rs) ≡ length xs + length rs
length-onto [] rs = omega arith
length-onto (x ∷ xs) rs = omega (arith, length-onto xs (x ∷ rs))

Chain-Back :
    (s : Store) (head a : ℕ) (xs rs : List ℕ) (b : ℕ)
    → Chain s a xs b
    → a ≡ top head rs
    → Back s head rs
    → Back s head (onto xs rs) × (s.prev b ≡ top head (onto xs rs))
Chain-Back s head a [] rs b (n, m) e k = (k, m ∙ e)
Chain-Back s head a (x ∷ xs) rs b (n, m, c) e k =
    Chain-Back s head x xs (x ∷ rs) b c refl (m ∙ e, k)

Back-set :
    (s : Store) (head local q to : ℕ) (rs : List ℕ)
    → times local rs ≡ 0
    → Back s head rs
    → Back (set_prev (set_next s q local) local to) head rs
Back-set s head local q to [] k b = tt
Back-set s head local q to (y ∷ rs) k (e, b) =
    let other : (y == local) ≡ false = one_apart y local (omega (arith, k, one_sym y local)) in
    (rw other e, Back-set s head local q to rs (omega (arith, k)) b)

Back-copy :
    (s : Store) (head local : ℕ) (rs : List ℕ)
    → times local rs ≡ 0
    → Back s head rs
    → Back (copy_entry s head local) head rs
Back-copy s head local [] k b = tt
Back-copy s head local (y ∷ rs) k (e, b) =
    let other : (y == local) ≡ false = one_apart y local (omega (arith, k, one_sym y local)) in
    (rw other e, Back-copy s head local rs (omega (arith, k)) b)

-- A copy of the head never looks empty.
record Copied (s : Store) (head local : ℕ) (rs : List ℕ) : Type 0 where
  not_empty : (s.next local == local) ≡ false
  last : s.prev local ≡ top head rs
  back : Back s head rs
  not_head : (head == local) ≡ false
  away : times local rs ≡ 0

pop-Copied :
    (s : Store) (head local : ℕ) (rs : List ℕ)
    → Copied s head local rs
    → (list_pop_back s local).0 ≡ some (top head rs)
unfolding list_pop_back
pop-Copied s head local rs c = rw (c.not_empty, c.last) refl

pop_left-Copied :
    (s : Store) (head local y : ℕ) (rs : List ℕ)
    → Copied s head local (y ∷ rs)
    → Copied (list_pop_back s local).1 head local rs
unfolding list_pop_back
pop_left-Copied s head local y rs c =
    let second_apart : (top head rs == local) ≡ false = top_apart rs c.away c.not_head in
    rw (c.not_empty, c.last, c.back.0)
      (record {
        not_empty = rw (flip (top head rs) local second_apart) c.not_empty;
        last = rw (==_self local) refl;
        back =
            Back-set s head local (top head rs) (top head rs) rs (omega (arith, c.away)) c.back.1;
        not_head = c.not_head;
        away = omega (arith, c.away);
      })
  where
    top_apart :
        (qs : List ℕ)
        → one local y + times local qs ≡ 0
        → (head == local) ≡ false
        → (top head qs == local) ≡ false
    top_apart [] k h = h
    top_apart (q ∷ qs) k h = one_apart q local (omega (arith, k, one_sym q local))

    flip : (a b : ℕ) → (a == b) ≡ false → (b == a) ≡ false
    flip a b h = ground (arith, h)

first_apart :
    (s : Store) (head local : ℕ) (xs : List ℕ)
    → Chain s head xs head
    → times local (head ∷ xs) ≡ 0
    → (s.next head == local) ≡ false
first_apart s head local [] (n, m) k =
    one_apart (s.next head) local (rw n (omega (arith, k, one_sym local head)))
first_apart s head local (x ∷ xs) (n, m, c) k =
    one_apart (s.next head) local (rw n (omega (arith, k, one_sym local x)))

IsRing-Copied :
    (s : Store) (head local : ℕ) (xs : List ℕ)
    → IsRing s head xs
    → times local (head ∷ xs) ≡ 0
    → Copied (copy_entry s head local) head local (onto xs [])
IsRing-Copied s head local xs r k =
    let (b, e) = Chain-Back s head head xs [] head r.links refl tt in
    let out : times local (onto xs []) ≡ 0 = omega (arith, times-onto local xs [], k) in
    record {
      not_empty = rw (==_self local) (first_apart s head local xs r.links k);
      last = rw (==_self local) e;
      back = Back-copy s head local (onto xs []) out b;
      not_head = one_apart head local (omega (arith, k, one_sym local head));
      away = out;
    }

module _ (os : Os) where
  delete_popped-bad_delete :
      (f : Store → Objects → Trace → Drained) (y : ℕ) (o : Option AcceptObject) (s : Store)
      (objects : Objects) (t : Trace)
      → ((u : Trace) → f s (store objects y none) u ≡ bad_delete)
      → delete_popped os f y o s objects t ≡ bad_delete
  delete_popped-bad_delete f y none s objects t more = refl
  delete_popped-bad_delete f y (some o) s objects t more = more (close_socket os o.new_socket t)

  still_none :
      (objects : Objects) (head y : ℕ) → objects head ≡ none → (store objects y none) head ≡ none
  still_none objects head y h = elim (Bool-cases (head == y)) [
    | inl e ↦ rw e refl
    | inr ne ↦ rw ne h
  ]

  -- Behind the entries comes the head itself.
  drain-bad_delete :
      (fuel head local : ℕ) (rs : List ℕ) (s : Store) (objects : Objects) (t : Trace)
      → length rs < fuel
      → Copied s head local rs
      → objects head ≡ none
      → drain os fuel local s objects t ≡ bad_delete
  unfolding drain
  drain-bad_delete zero head local rs s objects t f c h = absurd (omega (arith, f))
  drain-bad_delete (suc fuel) head local [] s objects t f c h =
      ap
        (λ (o : Option ℕ). popped os (drain os fuel local) (o, (list_pop_back s local).1) objects t)
        (pop-Copied s head local [] c)
      ∙ ap
          (λ (o : Option AcceptObject).
            delete_popped os (drain os fuel local) head o (list_pop_back s local).1 objects t)
          h
  drain-bad_delete (suc fuel) head local (y ∷ rs) s objects t f c h =
      ap
        (λ (o : Option ℕ). popped os (drain os fuel local) (o, (list_pop_back s local).1) objects t)
        (pop-Copied s head local (y ∷ rs) c)
      ∙ delete_popped-bad_delete (drain os fuel local) y (objects y) (list_pop_back s local).1
          objects t
          (λ u.
            drain-bad_delete fuel head local rs (list_pop_back s local).1 (store objects y none) u
              (omega (arith, f)) (pop_left-Copied s head local y rs c)
              (still_none objects head y h))

  -- A running Windows listener with a ring of accept objects, also an empty one, at the head of the first
  -- element of its vector: `Shutdown` deletes that head as if it were an accept object, whatever the
  -- address of the copy that it makes, if it is not one of those of the ring.
  pub shutdown_listener-faulted :
      (fuel local : ℕ) (s : WinListener) (i : ListenInfo) (is : List ListenInfo) (xs : List ℕ)
      (t : Trace)
      → s.is_shut ≡ false
      → s.heads ≡ i ∷ is
      → IsRing s.links i.head xs
      → times local (i.head ∷ xs) ≡ 0
      → s.objects i.head ≡ none
      → length xs < fuel
      → shutdown_listener os fuel local s t ≡ faulted
  unfolding shutdown_listener drain_heads
  shutdown_listener-faulted fuel local s i is xs t runs e r k h enough =
      ap
        (λ (b : Bool).
          if b
          then returned s t
          else shut_run os s (drain_heads os fuel local s.heads s.links s.objects t))
        runs
      ∙ ap
          (λ (is' : List ListenInfo).
            shut_run os s (drain_heads os fuel local is' s.links s.objects t))
          e
      ∙ ap
          (λ (d : Drained). shut_run os s (
            when_emptied os
              (λ s' objects' t'.
                drain_heads os fuel local is s' objects'
                  (call os (close_fd i.listen_fd) (call os (poll_remove i.listen_fd) t').1).1)
              d))
          (drain-bad_delete fuel i.head local (onto xs []) (copy_entry s.links i.head local)
            s.objects t (omega (arith, enough, length-onto xs []))
            (IsRing-Copied s.links i.head local xs r k) h)
