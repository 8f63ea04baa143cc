-- ===== src/Sensors/Load/Totals.antt =====
-- The sums of what src/load.c reports.
use mojit_os.Base.{
  length, All, Outcome, returns, exits, faults, ◌>>=◌, Ensures, Ensures-bind, ℕ, zero, suc, ◌≡◌,
  refl, sym, ap, ◌∙◌, Option, none, some, List,
}
use mojit_os.Sensors.Deltas.{
  IsU64, add_into, add_into-deltas, strtoull_in-IsU64, run, run_total, differences-deltas,
}
use mojit_os.Sensors.Load.{load_values_size, Load, read_loads, _get_load, get_load}
use mojit_os.Sensors.Reading.{pread_into, strtoull_in}
use mojit_os.Util.{skip_to_digit}
use mathlib.Core.List.{foldl}

read_loads-Numbers :
    (count : ℕ) (s : List ℕ)
    → Ensures (λ (v : List ℕ). All IsU64 v × (length v ≡ count)) (read_loads count s)
unfolding read_loads
read_loads-Numbers zero s = (tt, refl)
read_loads-Numbers (suc count) s = Ensures-bind _ _ (strtoull_in s) _ (strtoull_in-IsU64 s) (λ a ha.
    Ensures-bind _ _ (read_loads count a.1) _ (read_loads-Numbers count a.1)
      (λ b hb. ((ha, hb.0), ap suc hb.1)))

_get_load-Numbers :
    (stat : Option (List ℕ)) (buffer : List ℕ)
    → Ensures
        (λ (r : List ℕ × List ℕ). All IsU64 r.0 × (length r.0 ≡ load_values_size))
        (_get_load stat buffer)
unfolding _get_load
_get_load-Numbers none buffer = tt
_get_load-Numbers (some stat) buffer =
    Ensures-bind (λ (r : List ℕ × List ℕ). All IsU64 r.0 × (length r.0 ≡ load_values_size))
      (λ (r : List ℕ). Unit) (skip_to_digit (pread_into buffer 1023 stat))
      (λ ptr. read_loads load_values_size ptr >>= λ v. returns (v, pread_into buffer 1023 stat))
      (anything (skip_to_digit (pread_into buffer 1023 stat)))
      (λ ptr _.
        Ensures-bind (λ (r : List ℕ × List ℕ). All IsU64 r.0 × (length r.0 ≡ load_values_size))
          (λ (v : List ℕ). All IsU64 v × (length v ≡ load_values_size))
          (read_loads load_values_size ptr) (λ v. returns (v, pread_into buffer 1023 stat))
          (read_loads-Numbers load_values_size ptr) (λ v hv. hv))
  where
    anything : (m : Outcome (List ℕ)) → Ensures (λ (r : List ℕ). Unit) m
    anything (returns a) = tt
    anything (exits c) = tt
    anything faults = tt

-- Ten numbers of the last reading.
abbrev pub IsLoad : Load → Type 0
IsLoad m = All IsU64 m.load_values × (length m.load_values ≡ load_values_size)

get_load_moves :
    (stat : Option (List ℕ)) (m : Load)
    → IsLoad m
    → Ensures
        (λ (r : List ℕ × Load). IsLoad r.1 × (add_into m.load_values r.0 ≡ r.1.load_values))
        (get_load stat m)
unfolding get_load
get_load_moves stat m h =
    Ensures-bind _ _ (_get_load stat m.buffer) _ (_get_load-Numbers stat m.buffer) (λ v hv. (
      hv,
      ap (add_into m.load_values) (differences-deltas v.0 m.load_values hv.0 h.0)
          ∙ add_into-deltas m.load_values v.0 (hv.1 ∙ sym h.1) h.0 hv.0,
    ))

-- Over any sequence of calls of `get_load` that all return, the sums of the results, place by place and
-- modulo 2^64, lead from the times at the start to the last ones.
pub get_load_total :
    (calls : List (Option (List ℕ))) (m : Load)
    → IsLoad m
    → Ensures
        (λ (r : List (List ℕ) × Load). foldl add_into m.load_values r.0 ≡ r.1.load_values)
        (run get_load calls m)
get_load_total calls m h = run_total get_load (λ st. st.load_values) IsLoad get_load_moves calls m h
