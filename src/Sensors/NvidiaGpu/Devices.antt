-- ===== src/Sensors/NvidiaGpu/Devices.antt =====
-- The devices of src/nvidia_gpu.c against the catalog of their measures.
use mojit_os.Base.{
  ◌==◌, Bool-cases, length, length-append, returns, ℕ, zero, suc, ◌+◌, ◌≡◌, refl, sym, ap, inl, inr,
  Option, none, some, List, [], ◌++◌, arith,
}
use mojit_os.Sensors.NvidiaGpu.{
  Device, named_device, handled_device, init_device, get_device, label_device, keep_device,
  init_devices, init_nvidia_gpu, get_nvidia_gpu, label_nvidia_gpu,
}
use mojit_os.Sensors.NvidiaGpu.Catalog.{
  Measure, ask_all, labels_of, device_measures, ask_all-append, labels_of-append, measures_of,
  catalog,
}
use mojit_os.Sensors.NvidiaGpu.Measures.{Does, empty_measures, init_sensors-Does}
use mojit_os.Sensors.NvidiaSensors.{Nvml}
use mathlib.Core.Path.{subst}

-- Devices, with their count, do what a list of measures says.
record AllDo (n : ℕ) (devices : List Device) (measures : List Measure) : Type 0 where
  count : n ≡ length measures
  labels : label_nvidia_gpu devices ≡ labels_of measures
  values : (nvml : Nvml) → get_nvidia_gpu nvml devices ≡ ask_all nvml measures

-- What `init_device` gave does what a list of measures says.
DeviceDoes : ℕ × Option Device → List Measure → Type 0
DeviceDoes (n, none) measures = measures ≡ []
DeviceDoes (n, some d) measures = Does d.device n d.sensors measures

init_device-DeviceDoes :
    (start : Nvml) (i : ℕ)
    → DeviceDoes (init_device start i) (measures_of i start (start.handle_by_index i))
unfolding init_device handled_device
init_device-DeviceDoes start i = handled (start.handle_by_index i)
  where
    named :
        (device : ℕ) (o : Option (List ℕ))
        → DeviceDoes
            (named_device start i device o)
            (elim o [ none ↦ [] | some name ↦ device_measures device i start ])
    named device none = unfold DeviceDoes named_device in refl
    named device (some name) = unfold DeviceDoes named_device in init_sensors-Does start device i

    handled : (o : Option ℕ) → DeviceDoes (handled_device start i o) (measures_of i start o)
    handled none = unfold DeviceDoes in refl
    handled (some device) = named device (start.device_name device)

keep_device-AllDo :
    (r : ℕ × Option Device) (n : ℕ) (devices : List Device) (ms rest : List Measure)
    → DeviceDoes r ms
    → AllDo n devices rest
    → let p = keep_device r (n, devices) in AllDo p.0 p.1 (ms ++ rest)
unfolding DeviceDoes keep_device label_nvidia_gpu get_nvidia_gpu label_device get_device
keep_device-AllDo (c, none) n devices ms rest e d =
    subst (λ (l : List Measure). AllDo n devices (l ++ rest)) (sym e) d
keep_device-AllDo (c, some dev) n devices ms rest does d = elim (Bool-cases (c == 0)) [
  | inl e ↦
      let none_there = empty_measures ms (ground (arith, does.count)) in
      rw e (subst (λ (l : List Measure). AllDo n devices (l ++ rest)) (sym none_there) d)
  | inr e ↦ rw e (record {
    count = omega (arith, does.count, d.count, length-append ms rest);
    labels = rw (does.labels, d.labels) (sym (labels_of-append ms rest));
    values = λ nvml. rw (does.values nvml, d.values nvml) (sym (ask_all-append nvml ms rest));
  })
]

init_devices-AllDo :
    (start : Nvml) (i left : ℕ)
    → let p = init_devices start i left in AllDo p.0 p.1 (catalog start i left)
unfolding init_devices
init_devices-AllDo start i zero =
    unfold label_nvidia_gpu get_nvidia_gpu in
    record { count = refl; labels = refl; values = λ nvml. refl }
init_devices-AllDo start i (suc left) =
    keep_device-AllDo (init_device start i) _ _ _ _ (init_device-DeviceDoes start i)
      (init_devices-AllDo start (i + 1) left)

-- For the devices that `init_nvidia_gpu` finds there is one list of measures, determined by what the
-- library answers at the start: `init_nvidia_gpu` returns its length, `label_nvidia_gpu` gives its
-- labels, and `get_nvidia_gpu` asks for its values in the same order at any later moment, so that a
-- label and its value stand at the same index, or ends the process at the first that is missing.
pub init_nvidia_gpu-catalog :
    (start later : Nvml) (avaible_device_count : ℕ)
    → (devices : List Device) × (init_nvidia_gpu start (some avaible_device_count)
        ≡ returns (length (catalog start 0 avaible_device_count), devices))
      × (label_nvidia_gpu devices ≡ labels_of (catalog start 0 avaible_device_count))
      × (get_nvidia_gpu later devices ≡ ask_all later (catalog start 0 avaible_device_count))
unfolding init_nvidia_gpu
init_nvidia_gpu-catalog start later avaible_device_count =
    let (n, devices) = init_devices start 0 avaible_device_count in
    let all = init_devices-AllDo start 0 avaible_device_count in
    (devices, ap (λ (c : ℕ). returns (c, devices)) all.count, all.labels, all.values later)
