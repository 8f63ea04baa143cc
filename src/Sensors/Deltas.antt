-- ===== src/Sensors/Deltas.antt =====
-- Sensors that report how far counters have gone since the last call.
use mojit_os.Base.{
  length, All, Outcome, returns, faults, ◌>>=◌, Ensures, Ensures-bind, Ensures-if, ℕ, suc, ◌+◌, ◌-◌,
  ◌%◌, ◌<◌, ◌≡◌, refl, ap, ◌∙◌, Option, none, some, List, [], ◌∷◌, arith,
}
use mojit_os.Base.Text.{u64_mod, strtoull}
use mojit_os.Sensors.Reading.{Files, pread_into, strtoull_in, read_value, read_values}
use mojit_os.Util.{modulo_substraction}
use mathlib.Core.List.{foldl}

abbrev pub IsU64 : ℕ → Type 0
IsU64 n = n < u64_mod

-- `results[i] = modulo_substraction(tmp_values[i], values[i])` for every index.
abbrev pub deltas : List ℕ → List ℕ → List ℕ
deltas [] values = []
deltas (t ∷ tmp_values) [] = []
deltas (t ∷ tmp_values) (v ∷ values) = modulo_substraction t v ∷ deltas tmp_values values

-- Sums of 64-bit numbers, place by place.
abbrev pub add_into : List ℕ → List ℕ → List ℕ
add_into [] results = []
add_into (v ∷ values) [] = v ∷ values
add_into (v ∷ values) (r ∷ results) = (v + r) % u64_mod ∷ add_into values results

pub add_into-deltas :
    (values tmp_values : List ℕ)
    → length tmp_values ≡ length values
    → All IsU64 values
    → All IsU64 tmp_values
    → add_into values (deltas tmp_values values) ≡ tmp_values
unfolding modulo_substraction
add_into-deltas [] [] same hv ht = refl
add_into-deltas [] (t ∷ tmp) same hv ht = absurd (omega arith)
add_into-deltas (v ∷ values) [] same hv ht = absurd (omega arith)
add_into-deltas (v ∷ values) (t ∷ tmp) same (hv, hvs) (ht, hts) =
    let rest = add_into-deltas values tmp (omega arith) hvs hts in ground (arith, rest)

pub length-deltas :
    (tmp_values values : List ℕ)
    → length tmp_values ≡ length values
    → length (deltas tmp_values values) ≡ length values
length-deltas [] [] same = refl
length-deltas [] (v ∷ values) same = absurd (omega arith)
length-deltas (t ∷ tmp) [] same = absurd (omega arith)
length-deltas (t ∷ tmp) (v ∷ values) same = omega (arith, length-deltas tmp values (omega arith))

-- What strtoull gives is a uint64_t.
strtoull-IsU64 : (s : List ℕ) → IsU64 (strtoull s).0
unfolding strtoull
strtoull-IsU64 s = ground arith

pub strtoull_in-IsU64 : (s : List ℕ) → Ensures (λ (r : ℕ × List ℕ). IsU64 r.0) (strtoull_in s)
unfolding strtoull_in
strtoull_in-IsU64 s =
    Ensures-if (λ (r : ℕ × List ℕ). IsU64 r.0) _ faults (returns (strtoull s)) tt (strtoull-IsU64 s)

-- A loop of readings gives a uint64_t for each descriptor.
pub read_values-IsU64 :
    {D : Type 0} (count : ℕ) (files : Files D) (sources : List D) (buffer : List ℕ)
    → Ensures
        (λ (r : List ℕ × List ℕ). All IsU64 r.0 × (length r.0 ≡ length sources))
        (read_values count files sources buffer)
unfolding read_values
read_values-IsU64 count files [] buffer = (tt, refl)
read_values-IsU64 count files (fd ∷ sources) buffer =
    Ensures-bind _ (λ (r : ℕ × List ℕ). IsU64 r.0) (read_value count buffer (files fd)) _
      (value (files fd))
      (λ a ha.
        Ensures-bind _ _ (read_values count files sources a.1) _
          (read_values-IsU64 count files sources a.1) (λ b hb. ((ha, hb.0), ap suc hb.1)))
  where
    value :
        (o : Option (List ℕ)) → Ensures (λ (r : ℕ × List ℕ). IsU64 r.0) (read_value count buffer o)
    value none = tt
    value (some content) =
        Ensures-bind _ _ (strtoull_in (pread_into buffer count content)) _
          (strtoull_in-IsU64 (pread_into buffer count content)) (λ a ha. ha)

-- A sensor's calls one after the other, in the environments of their moments.
module _ {E St : Type 0} (get : E → St → Outcome (List ℕ × St)) where
  unfoldable pub run : List E → St → Outcome (List (List ℕ) × St)
  run [] st = returns ([], st)
  run (e ∷ es) st = do
    (results, st') ← get e st
    (more, st'') ← run es st'
    returns (results ∷ more, st'')

  -- If each call moves `view` by its results, so does a run by the sums of its results.
  pub run_total :
      (view : St → List ℕ) (Inv : St → Type 0)
      → ((e : E) (st : St)
          → Inv st
          → Ensures (λ (r : List ℕ × St). Inv r.1 × (add_into (view st) r.0 ≡ view r.1)) (get e st))
      → (es : List E) (st : St) → Inv st
      → Ensures (λ (r : List (List ℕ) × St). foldl add_into (view st) r.0 ≡ view r.1) (run es st)
  unfolding run
  run_total view Inv step [] st h = refl
  run_total view Inv step (e ∷ es) st h = Ensures-bind _ _ (get e st) _ (step e st h) (λ a ha.
      Ensures-bind _ _ (run es a.1) _ (run_total view Inv step es a.1 ha.0)
        (λ b hb. ap (λ (v : List ℕ). foldl add_into v b.0) ha.1 ∙ hb))

-- `uint64_t` subtraction.
abbrev pub sub_u64 : ℕ → ℕ → ℕ
sub_u64 a b = (a + u64_mod - b) % u64_mod

-- `results[i] = tmp_values[i] - values[i]` for every index.
abbrev pub differences : List ℕ → List ℕ → List ℕ
differences [] values = []
differences (t ∷ tmp_values) [] = []
differences (t ∷ tmp_values) (v ∷ values) = sub_u64 t v ∷ differences tmp_values values

-- On 64-bit numbers the plain difference is the one that looks for a wrap.
pub differences-deltas :
    (tmp_values values : List ℕ)
    → All IsU64 tmp_values
    → All IsU64 values
    → differences tmp_values values ≡ deltas tmp_values values
unfolding modulo_substraction
differences-deltas [] values ht hv = refl
differences-deltas (t ∷ tmp) [] ht hv = refl
differences-deltas (t ∷ tmp) (v ∷ values) (ht, hts) (hv, hvs) =
    let rest = differences-deltas tmp values hts hvs in ground (arith, rest)
