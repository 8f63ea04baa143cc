-- ===== src/Sensors/Network/Start.antt =====
-- How src/network.c starts: how many devices it keeps, and what it makes of them.
use mojit_os.Base.{
  leb, Bool-cases, length, drop, replicate, All, length-append, Outcome, returns, exits, faults,
  ◌>>=◌, Ensures, Ensures-bind, Ensures-if, ℕ, zero, suc, ◌*◌, ◌≤◌, ◌≡◌, refl, ap, inl, inr, Bool,
  true, false, Option, none, some, List, [], ◌∷◌, map, arith,
}
use mojit_os.Base.Text.{codes, bytes_eq}
use mojit_os.Sensors.Network.{
  Network, filenames_network, Stack, get_all, sensor_path, or_exit_open, open_dev, open_devs,
  labels_of_dev, find_devices, start_network, init_network, flat, label_network,
}
use mojit_os.Sensors.Network.Totals.{Measured, get_all-Measured, IsNetwork}
use mojit_os.Sensors.Reading.{Opened, opened, refused, Files}
use mojit_os.Sensors.Routes.{
  Reads, Input, next_name, name_length, known_device, saved_name, nb_max_dev, add_device, Run,
  after_device, after_name, route_loop, first_device, route_buffer, enough, route_search, settle,
  read_routes,
}

-- One device at least, and no more than the arrays hold.
abbrev pub Few : List (List ℕ) → Type 0
Few devs = (1 ≤ length devs) × (length devs ≤ nb_max_dev)

-- The same of a run that has ended.
abbrev FewRun : Run (List (List ℕ)) → Type 0
FewRun none = Unit
FewRun (some result) = Ensures Few result

after_device-Few :
    (loop : List (List ℕ) → Run (List (List ℕ))) (r : Outcome (Bool × List (List ℕ)))
    → Ensures (λ (b : Bool × List (List ℕ)). Few b.1) r
    → ((devs : List (List ℕ)) → Few devs → FewRun (loop devs))
    → FewRun (after_device loop r)
unfolding after_device
after_device-Few loop (returns (true, devs)) h k = k devs h
after_device-Few loop (returns (false, devs)) h k = h
after_device-Few loop (exits code) h k = tt
after_device-Few loop faults h k = tt

add_device-Few :
    (buffer : List ℕ) (start s : ℕ) (devs : List (List ℕ))
    → Few devs
    → Ensures (λ (b : Bool × List (List ℕ)). Few b.1) (add_device buffer start s devs)
unfolding add_device
add_device-Few buffer start s devs h =
    elim (Bool-cases (known_device (name_length start s) (drop start buffer) devs)) [
      | inl known ↦ rw known h
      | inr new ↦ rw new (elim (Bool-cases (leb nb_max_dev (length devs))) [
        | inl full ↦ rw full h
        | inr room ↦ rw room (
            Ensures-bind (λ (b : Bool × List (List ℕ)). Few b.1) (λ (n : List ℕ). Unit)
              (saved_name buffer start s) _ (anything (saved_name buffer start s))
              (λ name _. ground (arith, h, length-append devs (name ∷ []))))
      ])
    ]
  where
    anything : (m : Outcome (List ℕ)) → Ensures (λ (n : List ℕ). Unit) m
    anything (returns a) = tt
    anything (exits c) = tt
    anything faults = tt

route_loop-Few :
    (fuel s : ℕ) (input : Input) (devs : List (List ℕ))
    → Few devs
    → FewRun (route_loop fuel route_buffer s input devs)
unfolding route_loop after_name
route_loop-Few zero s input devs h = tt
route_loop-Few (suc fuel) s input devs h =
    named (next_name route_buffer s input)
      (λ s' input' devs' h'. route_loop-Few fuel s' input' devs' h')
  where
    named :
        (r : Outcome (Option (ℕ × ℕ) × Input))
        → ((s' : ℕ) (input' : Input) (devs' : List (List ℕ))
            → Few devs'
            → FewRun (route_loop fuel route_buffer s' input' devs'))
        → FewRun (
            after_name
              (λ s'. λ input'. λ devs'. route_loop fuel route_buffer s' input' devs')
              devs
              r)
    named (returns (none, input')) k = h
    named (returns (some (start, s'), input')) k =
        after_device-Few _ (add_device input'.buffer start s' devs)
          (add_device-Few input'.buffer start s' devs h) (λ devs' h'. k s' input' devs' h')
    named (exits code) k = tt
    named faults k = tt

first_device-Few :
    (fuel : ℕ) (r : Outcome (Option (ℕ × ℕ) × Input)) → FewRun (first_device fuel route_buffer r)
unfolding first_device
first_device-Few fuel (returns (none, input)) = tt
first_device-Few fuel (returns (some (start, s), input)) =
    after_device-Few (route_loop fuel route_buffer s input) _
      (one (saved_name input.buffer start s)) (λ devs h. route_loop-Few fuel s input devs h)
  where
    one :
        (m : Outcome (List ℕ))
        → Ensures
            (λ (b : Bool × List (List ℕ)). Few b.1)
            (m >>= λ (name : List ℕ). returns (true, name ∷ []))
    one (returns name) = (omega arith, omega arith)
    one (exits c) = tt
    one faults = tt
first_device-Few fuel (exits code) = tt
first_device-Few fuel faults = tt

settle-Few : (o : Run (List (List ℕ))) → FewRun o → Ensures Few (settle o)
settle-Few none h = tt
settle-Few (some result) h = h

read_routes-Few : (reads : Reads) → Ensures Few (read_routes reads)
unfolding read_routes route_search
read_routes-Few reads =
    let start : Input = record { reads = reads; buffer = replicate route_buffer 0 } in
    let result = first_device (enough reads) route_buffer (next_name route_buffer 0 start) in
    settle-Few result (first_device-Few (enough reads) (next_name route_buffer 0 start))

find_devices-Few :
    (route : Option Reads) (dev : Option (List ℕ)) → Ensures Few (find_devices route dev)
unfolding find_devices
find_devices-Few route none = tt
find_devices-Few route (some dev) =
    Ensures-if Few (bytes_eq dev (codes "X")) _ _ (from_route route)
      (Ensures-if Few (leb (length dev) 127) _ faults (omega arith, omega arith) tt)
  where
    from_route :
        (o : Option Reads)
        → Ensures Few (elim o [ none ↦ exits 1 | some reads ↦ read_routes reads ])
    from_route none = tt
    from_route (some reads) = read_routes-Few reads

open_dev-length :
    (open_file : List ℕ → Opened) (dev : List ℕ) (names : List (List ℕ))
    → Ensures (λ (fds : List ℕ). length fds ≡ length names) (open_dev open_file dev names)
unfolding open_dev
open_dev-length open_file dev [] = refl
open_dev-length open_file dev (name ∷ names) =
    answer (open_file (sensor_path dev name)) (open_dev-length open_file dev names)
  where
    answer :
        (o : Opened)
        → Ensures (λ (fds : List ℕ). length fds ≡ length names) (open_dev open_file dev names)
        → Ensures
            (λ (fds : List ℕ). length fds ≡ suc (length names))
            (or_exit_open o >>= λ (fd : ℕ).
              open_dev open_file dev names >>= λ (fds : List ℕ). returns (fd ∷ fds))
    answer (opened fd) later =
        Ensures-bind _ _ (open_dev open_file dev names) _ later (λ fds h. ap suc h)
    answer (refused errno) later = tt

-- Four descriptors for each device.
abbrev Fours : List (List ℕ) → List (List ℕ) → Type 0
Fours devs sources = (length sources ≡ length devs) × All (λ (row : List ℕ). length row ≡ 4) sources

open_devs-Fours :
    (open_file : List ℕ → Opened) (devs : List (List ℕ))
    → Ensures (Fours devs) (open_devs open_file devs)
unfolding open_devs
open_devs-Fours open_file [] = (refl, tt)
open_devs-Fours open_file (dev ∷ devs) =
    Ensures-bind (Fours (dev ∷ devs)) _ (open_dev open_file dev filenames_network) _
      (open_dev-length open_file dev filenames_network)
      (λ fds hf.
        Ensures-bind (Fours (dev ∷ devs)) (Fours devs) (open_devs open_file devs) _
          (open_devs-Fours open_file devs) (λ more hm. (ap suc hm.0, (hf, hm.1))))

length-labels : (devs : List (List ℕ)) → length (flat (map labels_of_dev devs)) ≡ length devs * 4
length-labels [] = refl
length-labels (dev ∷ devs) = omega (arith, length-labels devs)

-- What a start leaves behind: between one and eight devices, four descriptors for each, a number that
-- was read for each descriptor, and as many labels as values are announced.
pub record StartedNetwork (count : ℕ) (s : Network) : Type 0 where
  pub some_dev : 1 ≤ length s.devs
  pub room : length s.devs ≤ nb_max_dev
  pub count_ok : count ≡ length s.devs * 4
  pub sources_ok : length s.sources ≡ length s.devs
  pub fours : All (λ (row : List ℕ). length row ≡ 4) s.sources
  pub measured : IsNetwork s
  pub labels_ok : length (label_network s) ≡ count

-- If `init_network` returns, without an exit and without undefined behaviour, it has between one and eight
-- devices, four descriptors for each, a first reading of each descriptor, and returns the number of
-- its labels, four for each device. That it returns is no part of this: an argument of more than 127
-- bytes, for one, is written past its array.
pub init_network-StartedNetwork :
    (route : Option Reads) (open_file : List ℕ → Opened) (files : Files ℕ) (stack : Stack)
    (dev : Option (List ℕ))
    → Ensures
        (λ (r : ℕ × Network). StartedNetwork r.0 r.1)
        (init_network route open_file files stack dev)
unfolding init_network start_network label_network
init_network-StartedNetwork route open_file files stack dev =
    Ensures-bind (λ (r : ℕ × Network). StartedNetwork r.0 r.1) Few (find_devices route dev) _
      (find_devices-Few route dev)
      (λ devs few.
        Ensures-bind (λ (r : ℕ × Network). StartedNetwork r.0 r.1) (Fours devs)
          (open_devs open_file devs) _ (open_devs-Fours open_file devs)
          (λ sources fours.
            Ensures-bind (λ (r : ℕ × Network). StartedNetwork r.0 r.1) (Measured sources)
              (get_all files stack sources) _ (get_all-Measured files stack sources)
              (λ values measured. record {
                some_dev = few.0;
                room = few.1;
                count_ok = refl;
                sources_ok = fours.0;
                fours = fours.1;
                measured = measured;
                labels_ok = length-labels devs;
              })))
