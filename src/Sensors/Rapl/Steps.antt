-- ===== src/Sensors/Rapl/Steps.antt =====
-- The energies that src/rapl.c reports, against the counters' ranges.
use mojit_os.Base.{returns, ℕ, ◌+◌, ◌%◌, ◌≤◌, ◌<◌, ◌≡◌, refl, List, [], ◌∷◌, arith}
use mojit_os.Base.Text.{u64_mod}
use mojit_os.Sensors.Rapl.{IntelRapl, _get_rapl, bound_deltas, get_rapl}
use mojit_os.Sensors.Reading.{Files, AllShow, read_values-AllShow}
use mojit_os.Util.{modulo_substraction_bound_unique}
use native.Mathlib.Nat.{mod-lt}

-- The counters after one more step each, around their ranges from 0 to `modulo`.
abbrev pub advanced : List ℕ → List ℕ → List ℕ → List ℕ
advanced (v ∷ values) (m ∷ modulo) (s ∷ steps) = (v + s) % (m + 1) ∷ advanced values modulo steps
advanced values modulo steps = []

-- Values and steps within the ranges, one for each.
abbrev pub Within : List ℕ → List ℕ → List ℕ → Type 0
Within [] [] [] = Unit
Within (v ∷ values) (m ∷ modulo) (s ∷ steps) =
    (v ≤ m) × (m < u64_mod) × (s ≤ m) × Within values modulo steps
Within values modulo steps = ⊥

mod_le : (x m : ℕ) → x % (m + 1) ≤ m
mod_le x m = omega (arith, mod-lt x {m = m + 1} (omega arith))

bound_deltas-advanced :
    (values modulo steps : List ℕ)
    → Within values modulo steps
    → bound_deltas (advanced values modulo steps) values modulo ≡ steps
bound_deltas-advanced [] [] [] h = refl
bound_deltas-advanced [] [] (s ∷ steps) h = absurd h
bound_deltas-advanced [] (m ∷ modulo) steps h = absurd h
bound_deltas-advanced (v ∷ values) [] steps h = absurd h
bound_deltas-advanced (v ∷ values) (m ∷ modulo) [] h = absurd h
bound_deltas-advanced (v ∷ values) (m ∷ modulo) (s ∷ steps) (hv, hm, hs, h) =
    rw
      (
        (modulo_substraction_bound_unique ((v + s) % (m + 1)) v m s (mod_le (v + s) m) hv hm hs).1
            refl,
        bound_deltas-advanced values modulo steps h,
      )
      refl

-- When each counter has moved on by a step around its range, and its file shows where it is now,
-- `get_rapl` gives exactly these steps, wraps included, whatever the buffer held.
pub get_rapl_steps :
    (files : Files ℕ) (buffer : List ℕ) (s : IntelRapl) (steps : List ℕ)
    → Within s.values s.modulo steps
    → AllShow 100 files s.fids (advanced s.values s.modulo steps)
    → (next : List ℕ) × (get_rapl files (buffer, s)
        ≡ returns (
          steps,
          next,
          record s {
            values = advanced s.values s.modulo steps;
            tmp_values = advanced s.values s.modulo steps;
          },
        ))
unfolding get_rapl _get_rapl
get_rapl_steps files buffer s steps h shows =
    let (next, e) =
      read_values-AllShow 100 files s.fids (advanced s.values s.modulo steps) buffer shows in
    (next, rw e (rw (bound_deltas-advanced s.values s.modulo steps h) refl))
