-- ===== src/Sensors/Network.antt =====
-- src/network.c: packets and bytes of the network devices. The devices of the route file are found by
-- the module Routes.
mod Totals
mod Start
mod Found
mod Tests
use mojit_os.Base.{
  leb, if◌then◌else◌, length, take, replicate, Outcome, returns, exits, faults, ◌>>=◌, ℕ, ◌*◌,
  Option, none, some, List, [], ◌∷◌, ◌++◌, map,
}
use mojit_os.Base.Text.{codes, bytes_eq}
use mojit_os.Sensors.Deltas.{deltas}
use mojit_os.Sensors.Reading.{Opened, opened, refused, Files, read_values}
use mojit_os.Sensors.Routes.{Reads, read_routes}

-- The rows of the arrays of `NB_MAX_DEV` devices that are in use; `ndev` is the length of `devs`. A
-- device has four descriptors, labels and numbers.
pub record Network : Type 0 where
  pub values : List (List ℕ)
  pub tmp_values : List (List ℕ)
  pub sources : List (List ℕ)
  pub labels : List (List (List ℕ))
  pub devs : List (List ℕ)

abbrev pub labels_of_network : List (List ℕ)
labels_of_network = codes ":rxp" ∷ codes ":rxb" ∷ codes ":txp" ∷ codes ":txb" ∷ []

abbrev pub filenames_network : List (List ℕ)
filenames_network =
    codes "/statistics/rx_packets"
    ∷ codes "/statistics/rx_bytes"
    ∷ codes "/statistics/tx_packets"
    ∷ codes "/statistics/tx_bytes"
    ∷ []

-- What the uninitialised array `char buffer[128]` of a call of `_get_network` holds, for its sources.
abbrev pub Stack : Type 0
Stack = List ℕ → List ℕ

-- `sources` is an array of the state, never NULL.
unfoldable pub _get_network : Files ℕ → Stack → List ℕ → Outcome (List ℕ)
unfolding read_values
_get_network files stack sources = do
  (results, _) ← read_values 127 files sources (stack sources)
  returns results

unfoldable pub get_all : Files ℕ → Stack → List (List ℕ) → Outcome (List (List ℕ))
unfolding _get_network
get_all files stack [] = returns []
get_all files stack (row ∷ sources) = do
  values ← _get_network files stack row
  more ← get_all files stack sources
  returns (values ∷ more)

-- What `open` answers for the four files of a device.
abbrev pub sensor_path : List ℕ → List ℕ → List ℕ
sensor_path dev file = take 255 (codes "/sys/class/net/" ++ (dev ++ file))

unfoldable pub or_exit_open : Opened → Outcome ℕ
or_exit_open (opened fd) = returns fd
or_exit_open (refused errno) = exits 1

unfoldable pub open_dev : (List ℕ → Opened) → List ℕ → List (List ℕ) → Outcome (List ℕ)
unfolding or_exit_open
open_dev open_file dev [] = returns []
open_dev open_file dev (file ∷ files) = do
  fd ← or_exit_open (open_file (sensor_path dev file))
  fds ← open_dev open_file dev files
  returns (fd ∷ fds)

unfoldable pub open_devs : (List ℕ → Opened) → List (List ℕ) → Outcome (List (List ℕ))
unfolding open_dev
open_devs open_file [] = returns []
open_devs open_file (dev ∷ devs) = do
  fds ← open_dev open_file dev filenames_network
  more ← open_devs open_file devs
  returns (fds ∷ more)

abbrev pub labels_of_dev : List ℕ → List (List ℕ)
labels_of_dev dev = map (λ label. take 127 (dev ++ label)) labels_of_network

-- The devices to watch: those of the route file for X, or the one that is named. `route` is `none` if
-- the file does not open. A name of more than 127 bytes is written behind its array.
unfoldable pub find_devices : Option Reads → Option (List ℕ) → Outcome (List (List ℕ))
unfolding read_routes
find_devices route none = exits 1
find_devices route (some dev) =
    if bytes_eq dev (codes "X")
    then elim route [ none ↦ exits 1 | some reads ↦ read_routes reads ]
    else if leb (length dev) 127
    then returns (dev ∷ [])
    else faults

-- The part of `init_network` behind the choice of the devices.
unfoldable pub start_network :
    (List ℕ → Opened) → Files ℕ → Stack → List (List ℕ) → Outcome (ℕ × Network)
unfolding open_devs get_all
start_network open_file files stack devs = do
  sources ← open_devs open_file devs
  values ← get_all files stack sources
  returns (
    length devs * 4,
    record {
      values = values;
      tmp_values = map (λ row. replicate 4 0) devs;
      sources = sources;
      labels = map labels_of_dev devs;
      devs = devs;
    },
  )

unfoldable pub init_network :
    Option Reads → (List ℕ → Opened) → Files ℕ → Stack → Option (List ℕ) → Outcome (ℕ × Network)
unfolding find_devices start_network
init_network route open_file files stack dev = do
  devs ← find_devices route dev
  start_network open_file files stack devs

-- The loop of `get_network`: the results, and the new rows of `values`.
unfoldable pub get_devices :
    Files ℕ → Stack → List (List ℕ) → List (List ℕ) → Outcome (List ℕ × List (List ℕ))
unfolding _get_network
get_devices files stack [] values = returns ([], [])
get_devices files stack (row ∷ sources) [] = faults
get_devices files stack (row ∷ sources) (v ∷ values) = do
  tmp ← _get_network files stack row
  (results, more) ← get_devices files stack sources values
  returns (deltas tmp v ++ results, tmp ∷ more)

-- The return value is `ndev * 4`; here it is the length of the results.
unfoldable pub get_network : Files ℕ → Stack → Network → Outcome (List ℕ × Network)
unfolding get_devices
get_network files stack state = do
  (results, values) ← get_devices files stack state.sources state.values
  returns (results, record state { values = values; tmp_values = values })

-- The rows one after the other.
abbrev pub flat {ℓ} : {A : Type ℓ} → List (List A) → List A
flat [] = []
flat (row ∷ rows) = row ++ flat rows

-- The descriptors that are closed; a NULL state closes none.
unfoldable pub clean_network : Option Network → List ℕ
clean_network none = []
clean_network (some state) = flat state.sources

unfoldable pub label_network : Network → List (List ℕ)
label_network state = flat state.labels
