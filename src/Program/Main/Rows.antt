-- ===== src/Program/Main/Rows.antt =====
-- The rows that src/mojitos.c prints, and the cells that they are read from.
use mojit_os.Base.{
  ltb, length, All, returns, Safely, Safely-bind, Ensures, Ensures-bind, Ensures-if, ℕ, suc, ◌+◌,
  ◌≡◌, refl, ap, ◌∙◌, some, List, [], ◌∷◌, map,
}
use mojit_os.Libmojitos.{Sensor, Moj, moj_get_values}
use mojit_os.Libmojitos.Invariant.{Laws, IsValid}
use mojit_os.Libmojitos.Written.{Written, anything, Fills, moj_get_values-Written}
use mojit_os.Program.Loop.{
  signed_of, Settings, loop_bound, sleep_time, Moment, Effect, one_round, sample_loop, run_main,
}
use mojit_os.Program.Main.{read_cells, print_rows}

pub read_cells-Written :
    {A : Type 0} (values : List A) → read_cells (map some values) ≡ returns values
unfolding read_cells
read_cells-Written [] = refl
read_cells-Written (v ∷ values) = rw (read_cells-Written values) refl

abbrev pub AllWritten : List Effect → Type 0
AllWritten = All (λ (e : Effect). Written e.values)

-- A line for each round.
pub print_rows-AllWritten :
    (effects : List Effect)
    → AllWritten effects
    → Safely (λ (rows : List (List ℕ)). length rows ≡ length effects) (print_rows effects)
unfolding print_rows
print_rows-AllWritten [] h = refl
print_rows-AllWritten (e ∷ effects) ((values, same), h) =
    let read = ap read_cells same ∙ read_cells-Written values in
    rw read (
      Safely-bind _ (λ (rows : List (List ℕ)). length rows ≡ length effects) (print_rows effects) _
        (print_rows-AllWritten effects h) (λ rows long. ap suc long))

module _ {W St Act : Type 0} (sensors : List (Sensor W St Act)) (laws : Laws sensors)
    (fills : Fills laws) where
  one_round-Written :
      (s : Settings) (now : Moment W) (stat_data : ℕ) (m : Moj W St Act)
      → IsValid sensors laws m
      → Ensures
          (λ (r : Effect × ℕ × Moj W St Act). IsValid sensors laws r.2 × Written r.0.values)
          (one_round s now (stat_data, m))
  unfolding one_round
  one_round-Written s now stat_data m v =
      Ensures-bind _ (λ (m' : Moj W St Act). IsValid sensors laws m' × Written m'.values)
        (moj_get_values now.world m) _ (moj_get_values-Written sensors laws now.world m fills v)
        (λ m' h.
          Ensures-bind _ (λ (n : ℕ). Unit) (sleep_time (signed_of s.frequency) now.after_output) _
            (anything (sleep_time (signed_of s.frequency) now.after_output)) (λ n _. h))

  sample_loop-AllWritten :
      (s : Settings) (bound temps : ℕ) (moments : List (Moment W)) (stat_data : ℕ)
      (m : Moj W St Act)
      → IsValid sensors laws m
      → Ensures
          (λ (r : List Effect × Moj W St Act). AllWritten r.0)
          (sample_loop s bound temps moments (stat_data, m))
  unfolding sample_loop
  sample_loop-AllWritten s bound temps [] stat_data m v = tt
  sample_loop-AllWritten s bound temps (now ∷ moments) stat_data m v =
      Ensures-if (λ (r : List Effect × Moj W St Act). AllWritten r.0) (ltb temps bound) _
        (returns ([], m))
        (Ensures-bind (λ (r : List Effect × Moj W St Act). AllWritten r.0)
          (λ (r : Effect × ℕ × Moj W St Act). IsValid sensors laws r.2 × Written r.0.values)
          (one_round s now (stat_data, m)) _ (one_round-Written s now stat_data m v)
          (λ a ha.
            Ensures-bind _ (λ (r : List Effect × Moj W St Act). AllWritten r.0)
              (sample_loop s bound (temps + s.delta) moments (a.1, a.2)) _
              (sample_loop-AllWritten s bound (temps + s.delta) moments a.1 a.2 ha.0)
              (λ b hb. (ha.1, hb))))
        tt

  pub run_main-AllWritten :
      (s : Settings) (moments : List (Moment W)) (m : Moj W St Act)
      → IsValid sensors laws m
      → Ensures (λ (r : List Effect × Moj W St Act). AllWritten r.0) (run_main s moments m)
  unfolding run_main
  run_main-AllWritten s moments m v =
      Ensures-bind _ (λ (n : ℕ). Unit) (loop_bound (signed_of s.total_time) (signed_of s.frequency))
        _ (anything (loop_bound (signed_of s.total_time) (signed_of s.frequency)))
        (λ bound _. sample_loop-AllWritten s bound 0 moments 0 m v)
