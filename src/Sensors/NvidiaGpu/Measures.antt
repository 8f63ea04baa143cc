-- ===== src/Sensors/NvidiaGpu/Measures.antt =====
-- Each sensor of src/nvidia_gpu.c against its list of measures.
use mojit_os.Base.{
  ◌==◌, if◌then◌else◌, length, length-append, returns, ◌>>=◌, ℕ, suc, ◌≡◌, refl, sym, ap, false,
  Option, none, some, List, [], ◌∷◌, ◌++◌, arith,
}
use mojit_os.Sensors.NvidiaGpu.{
  add_started, avaible_sensors, init_sensors, get_sensors, label_sensors,
}
use mojit_os.Sensors.NvidiaGpu.Catalog.{
  Measure, ask_all, labels_of, part, answered, clock_measures, memory_measures,
  utilization_measures, power_measures, temperature_measures, device_measures, ask_all-append,
  labels_of-append,
}
use mojit_os.Sensors.NvidiaSensors.{
  Nvml, ISensor, NvSensor, clocks, ClockData, test_clock, test_clocks, init_clock_sensor, or_exit,
  get_clock_sensor, label_clock_sensor, if_answered, init_memory_sensor, memory_results,
  get_memory_sensor, label_memory_sensor, init_utilization_sensor, utilization_results,
  get_utilization_sensor, label_utilization_sensor, init_power_sensor, get_power_sensor,
  label_power_sensor, init_temperature_sensor, get_temperature_sensor, label_temperature_sensor,
  clock_fun, memory_fun, utilization_fun, power_fun, temperature_fun,
}
use mathlib.Core.Path.{subst}

-- Sensors, with their count, do what a list of measures says.
pub record Does (device : ℕ) (n : ℕ) (sensors : List NvSensor) (measures : List Measure)
    : Type 0 where
  pub count : n ≡ length measures
  pub labels : label_sensors sensors ≡ labels_of measures
  pub values : (nvml : Nvml) → get_sensors nvml device sensors ≡ ask_all nvml measures

-- What a sensor's `init` gave fits its measures.
Fits : {D : Type 0} → ℕ → ISensor D → Option (ℕ × D) → List Measure → Type 0
Fits device fun none measures = measures ≡ []
Fits device fun (some (c, content)) measures =
    (c ≡ length measures)
    × ((c == 0) ≡ false)
    × (fun.label content ≡ labels_of measures)
    × ((nvml : Nvml) → fun.get nvml device content ≡ ask_all nvml measures)

add_started-Does :
    {D : Type 0} (device : ℕ) (fun : ISensor D) (r : Option (ℕ × D)) (ms rest : List Measure)
    (n : ℕ) (sensors : List NvSensor)
    → Fits device fun r ms
    → Does device n sensors rest
    → let p = add_started fun r (n, sensors) in Does device p.0 p.1 (ms ++ rest)
unfolding Fits add_started label_sensors get_sensors
add_started-Does device fun none ms rest n sensors e d =
    subst (λ (l : List Measure). Does device n sensors (l ++ rest)) (sym e) d
add_started-Does device fun (some (c, content)) ms rest n sensors (count, nonzero, label, get) d =
    rw nonzero (record {
      count = omega (arith, count, d.count, length-append ms rest);
      labels = rw (label, d.labels) (sym (labels_of-append ms rest));
      values = λ nvml. rw (get nvml, d.values nvml) (sym (ask_all-append nvml ms rest));
    })

-- The clocks that answered at the start.
record DoesClocks (device : ℕ) (tested : ClockData) (measures : List Measure) : Type 0 where
  long : length tested ≡ length measures
  named : label_clock_sensor tested ≡ labels_of measures
  asked : (nvml : Nvml) → get_clock_sensor nvml device tested ≡ ask_all nvml measures

DoesClocks-more :
    (device clock_type : ℕ) (label : List ℕ) (tested : ClockData) (measures : List Measure)
    → DoesClocks device tested measures
    → DoesClocks device
        ((clock_type, label) ∷ tested)
        ((label, λ nvml. nvml.clock_info device clock_type) ∷ measures)
unfolding get_clock_sensor label_clock_sensor
DoesClocks-more device clock_type label tested measures d = record {
  long = ap suc d.long;
  named = ap (λ l. label ∷ l) d.named;
  asked = λ nvml. rw (d.asked nvml) refl;
}

test_clocks-DoesClocks :
    (start : Nvml) (device idx : ℕ) (list : List (ℕ × List ℕ))
    → DoesClocks device (test_clocks start device idx list) (clock_measures device idx start list)
unfolding test_clocks get_clock_sensor label_clock_sensor
test_clocks-DoesClocks start device idx [] = record {
  long = refl;
  named = refl;
  asked = λ nvml. refl;
}
test_clocks-DoesClocks start device idx ((clock_type, name) ∷ list) =
    answer (start.clock_info device clock_type) _ _ _ _
      (test_clocks-DoesClocks start device idx list)
  where
    answer :
        (o : Option ℕ) (clock_type : ℕ) (label : List ℕ) (tested : ClockData)
        (measures : List Measure)
        → DoesClocks device tested measures
        → DoesClocks device (test_clock o (clock_type, label) tested) (
            answered device idx o ((label, λ nvml. nvml.clock_info device clock_type) ∷ [])
            ++ measures)
    answer none clock_type label tested measures d = d
    answer (some clock) clock_type label tested measures d =
        DoesClocks-more device clock_type label tested measures d

pub empty_measures : (measures : List Measure) → 0 ≡ length measures → measures ≡ []
empty_measures [] h = refl
empty_measures (m ∷ measures) h = absurd (omega arith)

clock_fun-Fits :
    (start : Nvml) (device idx : ℕ)
    → Fits device clock_fun
        (init_clock_sensor start device idx)
        (clock_measures device idx start clocks)
unfolding init_clock_sensor
clock_fun-Fits start device idx =
    fits (test_clocks start device idx clocks) _ (test_clocks-DoesClocks start device idx clocks)
  where
    nonzero : (n : ℕ) → (suc n == 0) ≡ false
    nonzero n = ground arith

    fits :
        (tested : ClockData) (measures : List Measure)
        → DoesClocks device tested measures
        → Fits device clock_fun
            (if length tested == 0 then none else some (length tested, tested))
            measures
    fits [] measures d = unfold Fits in empty_measures measures d.long
    fits (c ∷ tested) measures d =
        unfold Fits in
        (rw (nonzero (length tested)) (d.long, nonzero (length tested), d.named, d.asked))

-- A sensor that asks one question of the library.
answered-Fits :
    {A D : Type 0} (device idx : ℕ) (fun : ISensor D) (o : Option A) (count : ℕ) (content : D)
    (ms : List Measure)
    → Fits device fun (some (count, content)) ms
    → Fits device fun (if_answered o (count, content)) (answered device idx o ms)
unfolding Fits if_answered
answered-Fits device idx fun none count content ms h = refl
answered-Fits device idx fun (some a) count content ms h = h

memory_fun-Fits :
    (start : Nvml) (device idx : ℕ)
    → Fits device memory_fun
        (init_memory_sensor start device idx)
        (memory_measures device idx start)
unfolding init_memory_sensor memory_results
memory_fun-Fits start device idx =
    answered-Fits device idx memory_fun (start.memory_info device) 3 _ _ (
      unfold Fits get_memory_sensor label_memory_sensor in
      (refl, refl, refl, λ nvml. get (nvml.memory_info device)))
  where
    get :
        (o : Option (ℕ × ℕ × ℕ))
        → memory_results o ≡ (
            or_exit (part (λ m. m.0) o) >>= λ free.
            or_exit (part (λ m. m.1) o)
            >>= (λ used. or_exit (part (λ m. m.2) o) >>= (λ whole. returns (whole ∷ [])) >>= λ l.
                returns (used ∷ l))
            >>= λ l. returns (free ∷ l))
    get none = refl
    get (some m) = refl

utilization_fun-Fits :
    (start : Nvml) (device idx : ℕ)
    → Fits device utilization_fun
        (init_utilization_sensor start device idx)
        (utilization_measures device idx start)
unfolding init_utilization_sensor utilization_results
utilization_fun-Fits start device idx =
    answered-Fits device idx utilization_fun (start.utilization_rates device) 2 _ _ (
      unfold Fits get_utilization_sensor label_utilization_sensor in
      (refl, refl, refl, λ nvml. get (nvml.utilization_rates device)))
  where
    get :
        (o : Option (ℕ × ℕ))
        → utilization_results o ≡ (
            or_exit (part (λ u. u.0) o) >>= λ gpu.
            or_exit (part (λ u. u.1) o) >>= (λ memory. returns (memory ∷ [])) >>= λ l.
            returns (gpu ∷ l))
    get none = refl
    get (some u) = refl

power_fun-Fits :
    (start : Nvml) (device idx : ℕ)
    → Fits device power_fun (init_power_sensor start device idx) (power_measures device idx start)
unfolding init_power_sensor
power_fun-Fits start device idx =
    answered-Fits device idx power_fun (start.power_usage device) 1 _ _
      (unfold Fits get_power_sensor label_power_sensor in (refl, refl, refl, λ nvml. refl))

temperature_fun-Fits :
    (start : Nvml) (device idx : ℕ)
    → Fits device temperature_fun
        (init_temperature_sensor start device idx)
        (temperature_measures device idx start)
unfolding init_temperature_sensor
temperature_fun-Fits start device idx =
    answered-Fits device idx temperature_fun (start.temperature device) 1 _ _ (
      unfold Fits get_temperature_sensor label_temperature_sensor in
      (refl, refl, refl, λ nvml. refl))

no_sensors-Does : (device : ℕ) → Does device 0 [] []
unfolding label_sensors get_sensors
no_sensors-Does device = record { count = refl; labels = refl; values = λ nvml. refl }

pub init_sensors-Does :
    (start : Nvml) (device idx : ℕ)
    → let p = init_sensors start device idx avaible_sensors in
      Does device p.0 p.1 (device_measures device idx start)
unfolding init_sensors
init_sensors-Does start device idx =
    add_started-Does device clock_fun _ _ _ _ _ (clock_fun-Fits start device idx) (
      add_started-Does device memory_fun _ _ _ _ _ (memory_fun-Fits start device idx) (
        add_started-Does device utilization_fun _ _ _ _ _ (utilization_fun-Fits start device idx) (
          add_started-Does device power_fun _ _ _ _ _ (power_fun-Fits start device idx) (
            add_started-Does device temperature_fun _ _ _ _ _
              (temperature_fun-Fits start device idx) (no_sensors-Does device)))))
