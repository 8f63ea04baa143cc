-- ===== src/InfoReader/Reaches.antt =====
-- Runs of the loop of `parse`, whatever their fuel.
use mojit_os.Base.{Outcome, returns, exits, faults, ℕ, zero, suc, ◌≡◌}
use mojit_os.InfoReader.{Parser, Round, stop, again, parse_round, after_round, parse_loop, parse}
use mojit_os.InfoReader.Safety.{IsSafe, parse_lem}

module _ {S : Type 0} where
  after_round_agree :
      (f g : ℕ) (o : Outcome (Round S)) {r r' : ℕ × Parser S}
      → ((k : ℕ) (p : Parser S) (a b : ℕ × Parser S)
          → parse_loop f k p ≡ returns a
          → parse_loop g k p ≡ returns b
          → a ≡ b)
      → after_round (parse_loop f) o ≡ returns r
      → after_round (parse_loop g) o ≡ returns r'
      → r ≡ r'
  unfolding after_round
  after_round_agree f g (returns (stop code q)) ih e e' = cc
  after_round_agree f g (returns (again k q)) ih e e' = ih k q _ _ e e'
  after_round_agree f g (exits c) ih e e' = cc
  after_round_agree f g faults ih e e' = cc

  -- Fuel only decides whether there is a result.
  parse_loop_agree :
      (f g k : ℕ) (p : Parser S) (r r' : ℕ × Parser S)
      → parse_loop f k p ≡ returns r
      → parse_loop g k p ≡ returns r'
      → r ≡ r'
  unfolding parse_loop
  parse_loop_agree zero g k p r r' e e' = cc
  parse_loop_agree (suc f) zero k p r r' e e' = cc
  parse_loop_agree (suc f) (suc g) k p r r' e e' =
      after_round_agree f g (parse_round k p) (parse_loop_agree f g) e e'

  -- Some fuel leads from a state of the loop to a result.
  abbrev pub Reaches : ℕ → Parser S → ℕ × Parser S → Type 0
  Reaches k p r = (f : ℕ) × (parse_loop f k p ≡ returns r)

  pub Reaches-again :
      (k k' : ℕ) (p q : Parser S) {r : ℕ × Parser S}
      → parse_round k p ≡ returns (again k' q)
      → Reaches k' q r
      → Reaches k p r
  unfolding parse_loop
  Reaches-again k k' p q e (f, run) = (suc f, rw e run)

  pub Reaches-stop :
      (k code : ℕ) (p q : Parser S)
      → parse_round k p ≡ returns (stop code q)
      → Reaches k p (code, q)
  unfolding parse_loop
  Reaches-stop k code p q e = (1, rw e)

  pub Reaches→parse :
      (p : Parser S) (r : ℕ × Parser S) → IsSafe p → Reaches 0 p r → parse p ≡ returns r
  unfolding parse
  Reaches→parse p r h (f, run) =
      let (code, q, e, s) = parse_lem p h in rw (parse_loop_agree _ f 0 p _ _ e run) at e
