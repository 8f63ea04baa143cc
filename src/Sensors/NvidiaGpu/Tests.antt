-- ===== src/Sensors/NvidiaGpu/Tests.antt =====
-- Runs of src/nvidia_gpu.c, and its theorem at a concrete input.
use mojit_os.Base.{
  ◌==◌, if◌then◌else◌, length, returns, ℕ, ◌+◌, ◌≡◌, refl, none, some, List, [], ◌∷◌,
}
use mojit_os.Base.Text.{codes}
use mojit_os.Sensors.NvidiaGpu.{
  Device, init_devices, init_nvidia_gpu, get_nvidia_gpu, label_nvidia_gpu,
}
use mojit_os.Sensors.NvidiaGpu.Catalog.{ask_all, labels_of, catalog}
use mojit_os.Sensors.NvidiaGpu.Devices.{init_nvidia_gpu-catalog}
use mojit_os.Sensors.NvidiaSensors.{
  Nvml, init_clock_sensor, get_clock_sensor, init_memory_sensor, get_memory_sensor,
  init_utilization_sensor, get_utilization_sensor, init_power_sensor, get_power_sensor,
  init_temperature_sensor, get_temperature_sensor,
}

-- Two devices; the first has no video clock and no power sensor, and the second has no name.
abbrev library_at : ℕ → Nvml
library_at moment = record {
  handle_by_index = λ i. some (i + 100);
  device_name = λ device. if device == 100 then some (codes "card") else none;
  clock_info = λ device clock_type. if clock_type == 3 then none else some (1000 + moment);
  memory_info = λ device. some (1, 2, 3);
  utilization_rates = λ device. some (50, moment);
  power_usage = λ device. none;
  temperature = λ device. some 60;
}

test_get :
    get_nvidia_gpu (library_at 7) (init_devices (library_at 0) 0 2).1
    ≡ returns (1007 ∷ 1007 ∷ 1007 ∷ 1 ∷ 2 ∷ 3 ∷ 50 ∷ 7 ∷ 60 ∷ [])
unfolding get_nvidia_gpu init_devices get_clock_sensor get_memory_sensor get_utilization_sensor
    get_power_sensor get_temperature_sensor init_clock_sensor init_memory_sensor
    init_utilization_sensor init_power_sensor init_temperature_sensor
test_get = refl

init_nvidia_gpu-catalog_example :
    (devices : List Device) × (init_nvidia_gpu (library_at 0) (some 2)
      ≡ returns (length (catalog (library_at 0) 0 2), devices))
    × (label_nvidia_gpu devices ≡ labels_of (catalog (library_at 0) 0 2))
    × (get_nvidia_gpu (library_at 7) devices ≡ ask_all (library_at 7) (catalog (library_at 0) 0 2))
init_nvidia_gpu-catalog_example = init_nvidia_gpu-catalog (library_at 0) (library_at 7) 2
