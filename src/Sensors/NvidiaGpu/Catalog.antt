-- ===== src/Sensors/NvidiaGpu/Catalog.antt =====
-- The measures of src/nvidia_gpu.c as one list, in which a label and the query of its value stand
use mojit_os.Base.{
  Outcome, returns, exits, faults, ◌>>=◌, >>=-returns, ℕ, zero, suc, ◌+◌, ◌≡◌, refl, sym, ap,
  Option, none, some, List, [], ◌∷◌, ◌++◌, map,
}
use mojit_os.Base.Text.{codes}
use mojit_os.Sensors.NvidiaSensors.{Nvml, long_label, short_label, clocks, or_exit}

-- together.

-- A label, and what is asked for its value.
abbrev pub Measure : Type 0
Measure = List ℕ × (Nvml → Option ℕ)

-- The answers in order; the first that is missing ends the process.
abbrev pub ask_all : Nvml → List Measure → Outcome (List ℕ)
ask_all nvml [] = returns []
ask_all nvml ((label, query) ∷ measures) = do
  value ← or_exit (query nvml)
  values ← ask_all nvml measures
  returns (value ∷ values)

abbrev pub labels_of : List Measure → List (List ℕ)
labels_of = map (λ (m : Measure). m.0)

abbrev pub part : {A : Type 0} → (A → ℕ) → Option A → Option ℕ
part f none = none
part f (some a) = some (f a)

module _ (device idx : ℕ) where
  -- What is there if a query was answered when the device was started.
  abbrev pub answered : {A : Type 0} → Option A → List Measure → List Measure
  answered none measures = []
  answered (some a) measures = measures

  abbrev pub clock_measures : Nvml → List (ℕ × List ℕ) → List Measure
  clock_measures start [] = []
  clock_measures start ((clock_type, name) ∷ rest) =
      answered (start.clock_info device clock_type)
        ((long_label 25 idx (codes "clk") name, λ nvml. nvml.clock_info device clock_type) ∷ [])
      ++ clock_measures start rest

  abbrev pub memory_measures : Nvml → List Measure
  memory_measures start = answered (start.memory_info device) (
      (
        long_label 25 idx (codes "mem") (codes "free"),
        λ nvml. part (λ m. m.0) (nvml.memory_info device),
      )
      ∷ (
        long_label 25 idx (codes "mem") (codes "used"),
        λ nvml. part (λ m. m.1) (nvml.memory_info device),
      )
      ∷ (
        long_label 25 idx (codes "mem") (codes "total"),
        λ nvml. part (λ m. m.2) (nvml.memory_info device),
      )
      ∷ [])

  abbrev pub utilization_measures : Nvml → List Measure
  utilization_measures start = answered (start.utilization_rates device) (
      (
        long_label 35 idx (codes "utilization") (codes "gpu"),
        λ nvml. part (λ u. u.0) (nvml.utilization_rates device),
      )
      ∷ (
        long_label 35 idx (codes "utilization") (codes "memory"),
        λ nvml. part (λ u. u.1) (nvml.utilization_rates device),
      )
      ∷ [])

  abbrev pub power_measures : Nvml → List Measure
  power_measures start =
      answered (start.power_usage device)
        ((short_label 25 idx (codes "power"), λ nvml. nvml.power_usage device) ∷ [])

  abbrev pub temperature_measures : Nvml → List Measure
  temperature_measures start =
      answered (start.temperature device)
        ((short_label 35 idx (codes "temperature"), λ nvml. nvml.temperature device) ∷ [])

  abbrev pub device_measures : Nvml → List Measure
  device_measures start =
      clock_measures start clocks
      ++ (memory_measures start
          ++ (utilization_measures start
              ++ (power_measures start ++ (temperature_measures start ++ []))))

pub ask_all-append :
    (nvml : Nvml) (front back : List Measure)
    → ask_all nvml (front ++ back)
      ≡ (ask_all nvml front >>= λ results. ask_all nvml back >>= λ more. returns (results ++ more))
ask_all-append nvml [] back = sym (>>=-returns (ask_all nvml back))
ask_all-append nvml ((label, query) ∷ front) back =
    rw (ask_all-append nvml front back)
      (step (or_exit (query nvml)) (ask_all nvml front) (ask_all nvml back))
  where
    step :
        (m : Outcome ℕ) (f b : Outcome (List ℕ))
        → (m >>= λ value. (f >>= λ results. b >>= λ more. returns (results ++ more)) >>= λ values.
            returns (value ∷ values))
          ≡ ((m >>= λ value. f >>= λ values. returns (value ∷ values)) >>= λ results.
              b >>= λ more. returns (results ++ more))
    step (returns v) (returns vs) (returns ws) = refl
    step (returns v) (returns vs) (exits c) = refl
    step (returns v) (returns vs) faults = refl
    step (returns v) (exits c) b = refl
    step (returns v) faults b = refl
    step (exits c) f b = refl
    step faults f b = refl

pub labels_of-append :
    (front back : List Measure) → labels_of (front ++ back) ≡ labels_of front ++ labels_of back
labels_of-append [] back = refl
labels_of-append (m ∷ front) back = ap (λ l. m.0 ∷ l) (labels_of-append front back)

-- The measures of the devices from `i` on; a device without a handle or a name has none.
abbrev pub measures_of : ℕ → Nvml → Option ℕ → List Measure
measures_of i start none = []
measures_of i start (some device) = elim (start.device_name device) [
  | none ↦ []
  | some name ↦ device_measures device i start
]

abbrev pub catalog : Nvml → ℕ → ℕ → List Measure
catalog start i zero = []
catalog start i (suc left) =
    measures_of i start (start.handle_by_index i) ++ catalog start (i + 1) left
