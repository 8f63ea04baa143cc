-- ===== src/Sensors/NvidiaGpu.antt =====
-- src/nvidia_gpu.c: the NVIDIA devices, each with the sensors that answer.
mod Catalog
mod Measures
mod Devices
mod Tests
use mojit_os.Base.{
  ◌==◌, if◌then◌else◌, Outcome, returns, exits, ◌>>=◌, ℕ, zero, suc, ◌+◌, Option, none, some, List,
  [], ◌∷◌, ◌++◌,
}
use mojit_os.Sensors.NvidiaSensors.{
  Nvml, NvidiaFree, devices_array, nvidia_struct, nvml_shutdown, ISensor, NvSensor, ClockData,
  clock_fun, memory_fun, utilization_fun, power_fun, temperature_fun,
}

-- Devices.

-- `count` is the length of `sensors`.
pub record Device : Type 1 where
  pub name : List ℕ
  pub device : ℕ
  pub idx : ℕ
  pub sensors : List NvSensor

-- What a started sensor adds: its count, and itself unless the count is 0.
unfoldable pub add_started :
    {D : Type 0} → ISensor D → Option (ℕ × D) → ℕ × List NvSensor → ℕ × List NvSensor
add_started fun none (total_count, sensors) = (total_count, sensors)
add_started {D} fun (some (count, content)) (total_count, sensors) =
    if count == 0
    then (total_count, sensors)
    else (count + total_count, record { Data = D; fun = fun; content = content } ∷ sensors)

abbrev pub Interface : Type 1
Interface = (D : Type 0) × ISensor D

abbrev pub avaible_sensors : List Interface
avaible_sensors =
    (ClockData, clock_fun)
    ∷ (List (List ℕ), memory_fun)
    ∷ (List (List ℕ), utilization_fun)
    ∷ (List ℕ, power_fun)
    ∷ (List ℕ, temperature_fun)
    ∷ []

-- The loop over `avaible_sensors`: `total_count` and the sensors.
unfoldable pub init_sensors : Nvml → ℕ → ℕ → List Interface → ℕ × List NvSensor
unfolding add_started
init_sensors nvml device idx [] = (0, [])
init_sensors nvml device idx ((D, fun) ∷ interfaces) =
    add_started fun (fun.init nvml device idx) (init_sensors nvml device idx interfaces)

-- The parts of `init_device` behind the queries of the name and of the handle.
unfoldable pub named_device : Nvml → ℕ → ℕ → Option (List ℕ) → ℕ × Option Device
unfolding init_sensors
named_device nvml device_idx device none = (0, none)
named_device nvml device_idx device (some name) =
    let (total_count, sensors) = init_sensors nvml device device_idx avaible_sensors in
    (
      total_count,
      some (record { name = name; device = device; idx = device_idx; sensors = sensors }),
    )

unfoldable pub handled_device : Nvml → ℕ → Option ℕ → ℕ × Option Device
unfolding named_device
handled_device nvml device_idx none = (0, none)
handled_device nvml device_idx (some device) =
    named_device nvml device_idx device (nvml.device_name device)

unfoldable pub init_device : Nvml → ℕ → ℕ × Option Device
unfolding handled_device
init_device nvml device_idx = handled_device nvml device_idx (nvml.handle_by_index device_idx)

unfoldable pub get_sensors : Nvml → ℕ → List NvSensor → Outcome (List ℕ)
get_sensors nvml device [] = returns []
get_sensors nvml device (s ∷ sensors) = do
  results ← s.fun.get nvml device s.content
  more ← get_sensors nvml device sensors
  returns (results ++ more)

-- The count that it returns is the length of the results; so it is in the functions below.
unfoldable pub get_device : Nvml → Device → Outcome (List ℕ)
unfolding get_sensors
get_device nvml device = get_sensors nvml device.device device.sensors

unfoldable pub label_sensors : List NvSensor → List (List ℕ)
label_sensors [] = []
label_sensors (s ∷ sensors) = s.fun.label s.content ++ label_sensors sensors

unfoldable pub label_device : Device → List (List ℕ)
unfolding label_sensors
label_device device = label_sensors device.sensors

-- One round of the loop of `init_nvidia_gpu`: the device's place is used again if it has no sensor.
unfoldable pub keep_device : ℕ × Option Device → ℕ × List Device → ℕ × List Device
keep_device (count, none) (sensor_count, devices) = (sensor_count, devices)
keep_device (count, some device) (sensor_count, devices) =
    if count == 0 then (sensor_count, devices) else (count + sensor_count, device ∷ devices)

-- The loop from index `i` on, for `left` devices.
unfoldable pub init_devices : Nvml → ℕ → ℕ → ℕ × List Device
unfolding init_device keep_device
init_devices nvml i zero = (0, [])
init_devices nvml i (suc left) = keep_device (init_device nvml i) (init_devices nvml (i + 1) left)

-- `avaible_device_count` is `none` where `nvmlInit` or `nvmlDeviceGetCount` fails.
unfoldable pub init_nvidia_gpu : Nvml → Option ℕ → Outcome (ℕ × List Device)
unfolding init_devices
init_nvidia_gpu nvml none = exits 1
init_nvidia_gpu nvml (some avaible_device_count) =
    returns (init_devices nvml 0 avaible_device_count)

unfoldable pub get_nvidia_gpu : Nvml → List Device → Outcome (List ℕ)
unfolding get_device
get_nvidia_gpu nvml [] = returns []
get_nvidia_gpu nvml (device ∷ devices) = do
  results ← get_device nvml device
  more ← get_nvidia_gpu nvml devices
  returns (results ++ more)

unfoldable pub label_nvidia_gpu : List Device → List (List ℕ)
unfolding label_device
label_nvidia_gpu [] = []
label_nvidia_gpu (device ∷ devices) = label_device device ++ label_nvidia_gpu devices

unfoldable pub clean_sensors : List NvSensor → List NvidiaFree
clean_sensors [] = []
clean_sensors (s ∷ sensors) = s.fun.clean s.content ++ clean_sensors sensors

unfoldable pub clean_device : Device → List NvidiaFree
unfolding clean_sensors
clean_device device = clean_sensors device.sensors

unfoldable pub clean_devices : List Device → List NvidiaFree
unfolding clean_device
clean_devices [] = []
clean_devices (device ∷ devices) = clean_device device ++ clean_devices devices

unfoldable pub clean_nvidia_gpu : List Device → List NvidiaFree
unfolding clean_devices
clean_nvidia_gpu nvidia =
    clean_devices nvidia ++ (devices_array ∷ nvidia_struct ∷ nvml_shutdown ∷ [])
