-- ===== src/HostPort/RoundTrip.antt =====
-- `SplitHostPort` of what `JoinHostPort` writes.
use raptor_lite.Common.{
  ℕ, suc, ◌+◌, ◌-◌, ◌≡◌, refl, ap, ◌∙◌, true, false, Option, none, some, List, [], ◌∷◌, ◌++◌, leb,
  ◌==◌, arith, length, length-append, get_elem?, take, drop, min, inl, inr, Bool-cases,
  Option-cases, ==_self, not_leb_of_lt, take_all,
}
use raptor_lite.HostPort.{
  colon, left_bracket, right_bracket, shift, index_of, find, substr, join_host_port, starts_with,
  parts, split_host_port, split_from, bare, bracketed, bracketed_host,
}

-- The first place of a byte that the text before it does not hold.
index_of-append :
    (c : ℕ) (xs ys : List ℕ) → index_of c xs ≡ none → index_of c (xs ++ c ∷ ys) ≡ some (length xs)
unfolding index_of
index_of-append c [] ys h = rw (==_self c) refl
index_of-append c (x ∷ xs) ys h = elim (Bool-cases (x == c)) [
  | inl e ↦ absurd (grind (arith, (rw e at h)))
  | inr ne ↦
      rw (ne, index_of-append c xs ys (unshifted (index_of c xs) (rw ne at h)))
        (ap some {x = 1 + length xs} {y = suc (length xs)} (omega arith))
]
  where
    unshifted : (o : Option ℕ) → shift 1 o ≡ none → o ≡ none
    unshifted none h = refl
    unshifted (some i) h = cc

drop-length : (xs ys : List ℕ) → drop (length xs) (xs ++ ys) ≡ ys
drop-length [] ys = refl
drop-length (x ∷ xs) ys = drop-length xs ys

take-length : (xs ys : List ℕ) → take (length xs) (xs ++ ys) ≡ xs
take-length [] ys = refl
take-length (x ∷ xs) ys = ap (◌∷◌ x) (take-length xs ys)

find_first :
    (c : ℕ) (xs ys : List ℕ) → index_of c xs ≡ none → find (xs ++ c ∷ ys) c 0 ≡ some (length xs)
unfolding find
find_first c xs ys h =
    rw
      (
        not_leb_of_lt (length (xs ++ c ∷ ys)) 0 (omega (arith, length-append xs (c ∷ ys))),
        index_of-append c xs ys h,
      )
      (ap some {x = 0 + length xs} {y = length xs} (omega arith))

drop_past : (n c : ℕ) (xs ys : List ℕ) → n ≡ suc (length xs) → drop n (xs ++ c ∷ ys) ≡ ys
drop_past n c xs ys e = rw e (behind xs)
  where
    behind : (us : List ℕ) → drop (suc (length us)) (us ++ c ∷ ys) ≡ ys
    behind [] = refl
    behind (u ∷ us) = behind us

-- A colon behind the first that is not there.
find_next :
    (xs ys : List ℕ)
    → index_of colon ys ≡ none
    → find (xs ++ colon ∷ ys) colon (length xs + 1) ≡ none
unfolding find
find_next xs ys h = elim (Bool-cases (leb (length (xs ++ colon ∷ ys)) (length xs + 1))) [
  | inl e ↦ rw e refl
  | inr ne ↦ rw (ne, drop_past (length xs + 1) colon xs ys (omega arith), h) refl
]

substr_first : (xs ys : List ℕ) → substr (xs ++ ys) 0 (length xs) ≡ xs
unfolding substr
substr_first xs ys =
    ap (λ (k : ℕ). take k (xs ++ ys)) {x = min (length xs) (length (xs ++ ys) - 0)} {y = length xs}
      (omega (arith, length-append xs ys))
    ∙ take-length xs ys

substr_last :
    (c n k : ℕ) (xs ys : List ℕ)
    → n ≡ suc (length xs)
    → k ≡ length ys
    → substr (xs ++ c ∷ ys) n k ≡ ys
unfolding substr
substr_last c n k xs ys e l = rw (drop_past n c xs ys e) (
    take_all (min k (length (xs ++ c ∷ ys) - n)) ys
      (omega (arith, e, l, length-append xs (c ∷ ys))))

bare-append :
    (xs ys : List ℕ)
    → index_of colon xs ≡ none
    → index_of colon ys ≡ none
    → bare (xs ++ colon ∷ ys) (find (xs ++ colon ∷ ys) colon 0) ≡ parts xs ys true true
unfolding bare
bare-append xs ys h k =
    ap (bare (xs ++ colon ∷ ys)) (find_first colon xs ys h)
    ∙ rw
        (
          find_next xs ys k,
          substr_first xs (colon ∷ ys),
          substr_last colon (length xs + 1) (length (xs ++ colon ∷ ys) - length xs - 1) xs ys
              (omega arith) (omega (arith, length-append xs (colon ∷ ys))),
        )
        refl

first_of_bare :
    (xs ys : List ℕ)
    → starts_with left_bracket xs ≡ false
    → (c : ℕ) × (get_elem? (xs ++ colon ∷ ys) 0 ≡ some c) × ((c == left_bracket) ≡ false)
first_of_bare [] ys h = (colon, refl, refl)
first_of_bare (x ∷ xs) ys h = (x, refl, h)

-- A text with no bracket in front and no colon, and a port with no colon, come back.
split_bare :
    (host decimal : List ℕ)
    → starts_with left_bracket host ≡ false
    → index_of colon host ≡ none
    → index_of colon decimal ≡ none
    → split_host_port (host ++ colon ∷ decimal) ≡ some (parts host decimal true true)
unfolding split_host_port split_from
split_bare host decimal h k d =
    let (c, e, ne) = first_of_bare host decimal h in
    ap (split_from (host ++ colon ∷ decimal)) e ∙ rw ne (ap some (bare-append host decimal k d))

-- The name that a bracketed text is written as.
abbrev enclosed : List ℕ → List ℕ → List ℕ
enclosed host decimal = left_bracket ∷ host ++ right_bracket ∷ colon ∷ decimal

length-enclosed :
    (host decimal : List ℕ) → length (enclosed host decimal) ≡ length host + length decimal + 3
length-enclosed host decimal = omega (arith, length-append host (right_bracket ∷ colon ∷ decimal))

find_right :
    (host decimal : List ℕ)
    → index_of right_bracket host ≡ none
    → find (enclosed host decimal) right_bracket 1 ≡ some (1 + length host)
unfolding find
find_right host decimal h =
    rw
      (
        not_leb_of_lt (length (enclosed host decimal)) 1
            (omega (arith, length-enclosed host decimal)),
        index_of-append right_bracket host (colon ∷ decimal) h,
      )
      refl

get_past :
    (n c d : ℕ) (xs ys : List ℕ)
    → n ≡ suc (suc (length xs))
    → get_elem? (c ∷ xs ++ d ∷ colon ∷ ys) n ≡ some colon
get_past n c d xs ys e = rw e (behind xs)
  where
    behind : (us : List ℕ) → get_elem? (us ++ d ∷ colon ∷ ys) (suc (length us)) ≡ some colon
    behind [] = refl
    behind (u ∷ us) = behind us

host_found :
    (host : List ℕ) (i : ℕ) → index_of colon host ≡ some i → find host colon 0 ≡ some (0 + i)
unfolding find index_of
host_found [] i h = cc
host_found (x ∷ xs) i h = rw (not_leb_of_lt (length (x ∷ xs)) 0 (omega arith)) (ap (shift 0) h)

substr_inner :
    (n : ℕ) (host decimal : List ℕ) → n ≡ length host → substr (enclosed host decimal) 1 n ≡ host
unfolding substr
substr_inner n host decimal e = rw e (
    ap (λ (k : ℕ). take k (host ++ right_bracket ∷ colon ∷ decimal))
      {x = min (length host) (length (enclosed host decimal) - 1)} {y = length host}
      (omega (arith, length-enclosed host decimal))
    ∙ take-length host (right_bracket ∷ colon ∷ decimal))

substr_port :
    (n k : ℕ) (host decimal : List ℕ)
    → n ≡ suc (suc (suc (length host)))
    → k ≡ length decimal
    → substr (enclosed host decimal) n k ≡ decimal
unfolding substr
substr_port n k host decimal e l =
    rw (e, past host)
      (take_all (min k (length (enclosed host decimal) - suc (suc (suc (length host))))) decimal
        (omega (arith, l, length-enclosed host decimal)))
  where
    past :
        (us : List ℕ)
        → drop (suc (suc (length us))) (us ++ right_bracket ∷ colon ∷ decimal) ≡ decimal
    past [] = refl
    past (u ∷ us) = past us

not_last_byte :
    (host decimal : List ℕ) → ((1 + length host) == (length (enclosed host decimal) - 1)) ≡ false
not_last_byte host decimal = ground (arith, length-enclosed host decimal)

bracketed-enclosed :
    (host decimal : List ℕ) (i : ℕ)
    → index_of colon host ≡ some i
    → bracketed (enclosed host decimal) (some (1 + length host)) ≡ parts host decimal true true
unfolding bracketed bracketed_host
bracketed-enclosed host decimal i h =
    rw
      (
        not_last_byte host decimal,
        get_past (1 + length host + 1) left_bracket right_bracket host decimal (omega arith),
        substr_inner (1 + length host - 1) host decimal (omega arith),
        substr_port (1 + length host + 2) (length (enclosed host decimal) - (1 + length host) - 2)
            host decimal (omega arith) (omega (arith, length-enclosed host decimal)),
        host_found host i h,
      )
      refl

-- A text with a colon and neither bracket comes back from its brackets.
split_enclosed :
    (host decimal : List ℕ) (i : ℕ)
    → index_of colon host ≡ some i
    → index_of right_bracket host ≡ none
    → split_host_port (enclosed host decimal) ≡ some (parts host decimal true true)
unfolding split_host_port split_from
split_enclosed host decimal i h r = ap some (
    ap (bracketed (enclosed host decimal)) (find_right host decimal r)
    ∙ bracketed-enclosed host decimal i h)

-- Splitting what `JoinHostPort` writes gives the host and the port back, with brackets put around an
-- IPv6 literal and taken off again: for a host that does not start with an opening bracket and holds
-- no closing one, and a port that prints without a colon.
pub split-join :
    (host decimal : List ℕ)
    → starts_with left_bracket host ≡ false
    → index_of right_bracket host ≡ none
    → index_of colon decimal ≡ none
    → split_host_port (join_host_port host decimal) ≡ some (parts host decimal true true)
unfolding join_host_port
split-join host decimal h r d = elim (Option-cases (index_of colon host)) [
  | inl e ↦ rw (h, e) (split_bare host decimal h e d)
  | inr (i, e) ↦ rw (h, e) (split_enclosed host decimal i e r)
]
