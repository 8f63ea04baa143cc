-- ===== src/InfoReader/Safety.antt =====
-- The end of `parse`, and its accesses to the array of structs.
use mojit_os.Base.{
  ltb, leb, ◌==◌, if◌then◌else◌, leb→le, Bool-cases, Option-cases, length, length-set, get_elem?-lt,
  Outcome, returns, exits, faults, ◌>>=◌, ℕ, zero, suc, ◌+◌, ◌≤◌, ◌<◌, ◌≡◌, refl, ◌∙◌, inl, inr,
  Bool, true, false, not, ◌&&◌, Option, none, some, List, arith,
}
use mojit_os.Base.Text.{cstr}
use mojit_os.InfoReader.{
  replace_first, newline, buffer_getline, KeyFinder, Parser, Round, stop, again, match, set_value,
  parse_line, after_getline, parse_round, after_round, parse_loop, parse,
}
use mojit_os.InfoReader.Lines.{buffer_getline_shrinks}

-- The struct that is being filled exists.
pub record IsSafe {S : Type 0} (p : Parser S) : Type 0 where
  pub room : p.nb_stored < p.capacity
  pub fits : p.capacity ≤ length p.storage

-- What a run leaves behind: code 0 means that the capacity is used up.
pub record Stopped {S : Type 0} (p : Parser S) (code : ℕ) (q : Parser S) : Type 0 where
  pub length_kept : length q.storage ≡ length p.storage
  pub capacity_kept : q.capacity ≡ p.capacity
  pub within : q.nb_stored ≤ q.capacity
  pub grows : p.nb_stored ≤ q.nb_stored
  pub full : code ≡ 0 → q.nb_stored ≡ q.capacity

module _ {S : Type 0} where
  abbrev RoundOk : Parser S → Outcome (Round S) → Type 0
  RoundOk p (returns (again k q)) =
      (length q.storage ≡ length p.storage)
      × (q.capacity ≡ p.capacity)
      × (q.nb_stored < q.capacity)
      × (p.nb_stored ≤ q.nb_stored)
      × (q.file ≡ p.file)
  RoundOk p (returns (stop code q)) = Stopped p code q
  RoundOk p (exits c) = ⊥
  RoundOk p faults = ⊥

  set_value-RoundOk :
      (p : Parser S) (k : ℕ) (finder : KeyFinder S) (raw : List ℕ)
      → IsSafe p
      → RoundOk p (set_value p finder raw >>= λ q. returns (again k q))
  unfolding set_value
  set_value-RoundOk p k finder raw h =
      let (struct, e) = get_elem?-lt p.storage p.nb_stored (omega arith) in
      rw (e, set_value) (length-set p.storage p.nb_stored _, refl, h.room, omega arith, refl)

  move_to_next-RoundOk :
      (p : Parser S) (b : Bool)
      → IsSafe p
      → leb p.capacity (p.nb_stored + 1) ≡ b
      → RoundOk p (
          if not b
          then returns (again 0 (record p { nb_stored = p.nb_stored + 1 }))
          else returns (stop 0 (record p { nb_stored = p.nb_stored + 1 })))
  move_to_next-RoundOk p true h e = record {
    length_kept = refl;
    capacity_kept = refl;
    within = omega (arith, h.room);
    grows = omega arith;
    full = λ _. omega (arith, h.room, leb→le _ _ e);
  }
  move_to_next-RoundOk p false h e = (refl, refl, ground arith, omega arith, refl)

  parse_line-RoundOk :
      (k : ℕ) (p : Parser S) (line : List ℕ) → IsSafe p → RoundOk p (parse_line k p line)
  unfolding parse_line
  parse_line-RoundOk k p line h = elim (Bool-cases (k == length p.keys && ltb 1 (length line))) [
    | inl e ↦ rw e (refl, refl, h.room, omega arith, refl)
    | inr e ↦ rw e (elim (Bool-cases (length line == 1)) [
      | inl one ↦ rw one (move_to_next-RoundOk p _ h refl)
      | inr more ↦
          rw more (elim (Option-cases (match p.keys (cstr (replace_first line newline 0)))) [
            | inl m ↦ rw m (refl, refl, h.room, omega arith, refl)
            | inr ((finder, raw), m) ↦ rw m (set_value-RoundOk p (k + 1) finder raw h)
          ])
    ])
  ]

  -- A round that goes on has read a byte, and keeps the array, its capacity and its safety.
  abbrev Goes : Parser S → Outcome (Round S) → Type 0
  Goes p (returns (again k q)) =
      IsSafe q
      × (length q.storage ≡ length p.storage)
      × (q.capacity ≡ p.capacity)
      × (p.nb_stored ≤ q.nb_stored)
      × (length q.file < length p.file)
  Goes p (returns (stop code q)) = Stopped p code q
  Goes p (exits c) = ⊥
  Goes p faults = ⊥

  RoundOk→Goes :
      (p : Parser S) (rest : List ℕ) (r : Outcome (Round S))
      → IsSafe p
      → length rest < length p.file
      → RoundOk (record p { file = rest }) r
      → Goes p r
  RoundOk→Goes p rest (returns (again k q)) h shorter (a, b, c, d, e) =
      (record { room = c; fits = omega (arith, h.fits) }, a, b, d, rw e shorter)
  RoundOk→Goes p rest (returns (stop code q)) h shorter s = record {
    length_kept = s.length_kept;
    capacity_kept = s.capacity_kept;
    within = s.within;
    grows = s.grows;
    full = s.full;
  }
  RoundOk→Goes p rest (exits c) h shorter r = r
  RoundOk→Goes p rest faults h shorter r = r

  ended :
      (k : ℕ) (p : Parser S) (rest : List ℕ)
      → IsSafe p
      → Stopped p 1
          (record p { nb_stored = if ltb 0 k then p.nb_stored + 1 else p.nb_stored; file = rest })
  ended k p rest h = record {
    length_kept = refl;
    capacity_kept = refl;
    within = ground (arith, h.room);
    grows = ground arith;
    full = λ e. absurd (omega arith);
  }

  after_getline-Goes :
      (k : ℕ) (p : Parser S) (r : Option (List ℕ) × List ℕ)
      → IsSafe p
      → buffer_getline p.file ≡ r
      → Goes p (after_getline k p r)
  unfolding after_getline
  after_getline-Goes k p (none, rest) h e = ended k p rest h
  after_getline-Goes k p (some line, rest) h e =
      RoundOk→Goes p rest _ h (buffer_getline_shrinks _ line rest e) (
        parse_line-RoundOk k (record p { file = rest }) line
          (record { room = h.room; fits = h.fits }))

  parse_round-Goes : (k : ℕ) (p : Parser S) → IsSafe p → Goes p (parse_round k p)
  unfolding parse_round
  parse_round-Goes k p h = after_getline-Goes k p (buffer_getline p.file) h refl

  -- What `parse` may do from a safe state: return, with the array's length and capacity kept.
  abbrev pub Ends : Parser S → Outcome (ℕ × Parser S) → Type 0
  Ends p r = (code : ℕ) × (q : Parser S) × (r ≡ returns (code, q)) × Stopped p code q

  Stopped-from :
      (p q : Parser S) {code : ℕ} {z : Parser S}
      → length q.storage ≡ length p.storage
      → q.capacity ≡ p.capacity
      → p.nb_stored ≤ q.nb_stored
      → Stopped q code z
      → Stopped p code z
  Stopped-from p q len cap up s = record {
    length_kept = s.length_kept ∙ len;
    capacity_kept = s.capacity_kept ∙ cap;
    within = s.within;
    grows = omega (arith, s.grows);
    full = s.full;
  }

  parse_loop-Ends :
      (fuel k : ℕ) (p : Parser S) → IsSafe p → length p.file < fuel → Ends p (parse_loop fuel k p)
  unfolding parse_loop
  parse_loop-Ends zero k p h f = absurd (omega arith)
  parse_loop-Ends (suc fuel) k p h f =
      go (parse_round k p) refl (parse_round-Goes k p h) (parse_loop-Ends fuel)
    where
      go :
          (r : Outcome (Round S))
          → parse_round k p ≡ r
          → Goes p r
          → ((k' : ℕ) (q : Parser S)
              → IsSafe q
              → length q.file < fuel
              → Ends q (parse_loop fuel k' q))
          → Ends p (parse_loop (suc fuel) k p)
      go (returns (stop code q)) e g ih = (code, q, rw (e, after_round) refl, g)
      go (returns (again k' q)) e (safe, len, cap, up, shorter) ih =
          let (code, z, run, s) = ih k' q safe (omega arith) in
          (code, z, rw (e, after_round) run, Stopped-from p q len cap up s)
      go (exits c) e g ih = absurd g
      go faults e g ih = absurd g

  -- From a state with a struct to fill, `parse` returns: it never writes outside the array of structs,
  -- never runs out of fuel, keeps the array's length, stores at most `capacity` structs, and code 0
  -- means that exactly `capacity` are stored.
  pub parse_lem : (p : Parser S) → IsSafe p → Ends p (parse p)
  unfolding parse
  parse_lem p h = parse_loop-Ends (length p.file + 1) 0 p h (omega arith)
