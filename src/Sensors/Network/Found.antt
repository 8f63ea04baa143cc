-- ===== src/Sensors/Network/Found.antt =====
-- The devices of the route file that src/network.c watches, and their first numbers.
use mojit_os.Base.{
  length, take, replicate, All, returns, ℕ, ◌*◌, ◌≤◌, ◌≡◌, refl, sym, ap, ◌∙◌, some, List, [], ◌∷◌,
  map,
}
use mojit_os.Base.Text.{codes, bytes_eq}
use mojit_os.Sensors.Network.{
  Network, filenames_network, Stack, _get_network, get_all, sensor_path, or_exit_open, open_dev,
  open_devs, labels_of_dev, find_devices, start_network, init_network,
}
use mojit_os.Sensors.Reading.{Opened, opened, Files, Shows, AllShow, read_values-AllShow}
use mojit_os.Sensors.Routes.{nb_max_dev}
use mojit_os.Sensors.Routes.Distinct.{distinct, Clear}
use mojit_os.Sensors.Routes.Rows.{Row, IsRow, row_names}
use mojit_os.Sensors.Routes.Scan.{Passes}
use mojit_os.Sensors.Routes.WholeFile.{route_text, read_routes-distinct}

_get_network-AllShow :
    (files : Files ℕ) (stack : Stack) (row numbers : List ℕ)
    → AllShow 127 files row numbers
    → _get_network files stack row ≡ returns numbers
unfolding _get_network
_get_network-AllShow files stack row numbers h =
    let (after, e) = read_values-AllShow 127 files row numbers (stack row) h in rw e refl

-- The descriptor of each file, and the number that its file shows.
module _ (fd_of : List ℕ → ℕ) (number : List ℕ → ℕ) where
  -- The file of a counter opens and shows its number.
  pub record Counts (open_file : List ℕ → Opened) (files : Files ℕ) (path : List ℕ) : Type 0 where
    pub opens : open_file path ≡ opened (fd_of path)
    pub shows : Shows 127 files (fd_of path) (number path)

  abbrev pub AllCount : (List ℕ → Opened) → Files ℕ → List (List ℕ) → Type 0
  AllCount open_file files = All (λ (dev : List ℕ).
      All (λ (name : List ℕ). Counts open_file files (sensor_path dev name)) filenames_network)

  abbrev pub paths : List ℕ → List (List ℕ)
  paths dev = map (sensor_path dev) filenames_network

  open_dev-Counts :
      (open_file : List ℕ → Opened) (files : Files ℕ) (dev : List ℕ) (names : List (List ℕ))
      → All (λ (name : List ℕ). Counts open_file files (sensor_path dev name)) names
      → (open_dev open_file dev names ≡ returns (map fd_of (map (sensor_path dev) names)))
        × AllShow 127 files
            (map fd_of (map (sensor_path dev) names))
            (map number (map (sensor_path dev) names))
  unfolding open_dev or_exit_open
  open_dev-Counts open_file files dev [] h = (refl, tt)
  open_dev-Counts open_file files dev (name ∷ names) (c, h) =
      let (opens, shows) = open_dev-Counts open_file files dev names h in
      (rw (c.opens, opens) refl, (c.shows, shows))

  start_devs :
      (open_file : List ℕ → Opened) (files : Files ℕ) (stack : Stack) (devs : List (List ℕ))
      → AllCount open_file files devs
      → (open_devs open_file devs ≡ returns (map (λ dev. map fd_of (paths dev)) devs))
        × (get_all files stack (map (λ dev. map fd_of (paths dev)) devs)
            ≡ returns (map (λ dev. map number (paths dev)) devs))
  unfolding open_devs get_all
  start_devs open_file files stack [] h = (refl, refl)
  start_devs open_file files stack (dev ∷ devs) (c, h) =
      let (opens, shows) = open_dev-Counts open_file files dev filenames_network c in
      let (later, values) = start_devs open_file files stack devs h in
      let first =
        _get_network-AllShow files stack (map fd_of (paths dev)) (map number (paths dev)) shows in
      (rw (opens, later) refl, rw (first, values) refl)

  -- The state with these devices.
  abbrev pub watching : List (List ℕ) → Network
  watching devs = record {
    values = map (λ dev. map number (paths dev)) devs;
    tmp_values = map (λ dev. replicate 4 0) devs;
    sources = map (λ dev. map fd_of (paths dev)) devs;
    labels = map labels_of_dev devs;
    devs = devs;
  }

  -- When the route file is a header line and at least one row, of 999 bytes at most, given by one `read`,
  -- no device's name in it is a proper beginning of another's, and the counters of the devices open and
  -- show numbers, `init_network` for X watches the first eight distinct names in the order of their
  -- rows, with the four files, labels and first numbers of each, and returns four times their number.
  pub init_network-watching :
      (open_file : List ℕ → Opened) (files : Files ℕ) (stack : Stack) (header : List ℕ) (r : Row)
      (rows : List Row) (devs : List (List ℕ))
      → Passes b'\n' header
      → IsRow r
      → All IsRow rows
      → Clear (row_names (r ∷ rows)) (row_names (r ∷ rows))
      → length (route_text header (r ∷ rows)) ≤ 999
      → devs ≡ take nb_max_dev (distinct [] (row_names (r ∷ rows)))
      → AllCount open_file files devs
      → init_network
          (some (some (route_text header (r ∷ rows)) ∷ []))
          open_file
          files
          stack
          (some (codes "X"))
        ≡ returns (length devs * 4, watching devs)
  unfolding init_network find_devices start_network bytes_eq
  init_network-watching open_file files stack header r rows devs ha hr h apart fits e counts =
      let found = read_routes-distinct header r rows ha hr h apart fits ∙ ap returns (sym e) in
      let (opens, values) = start_devs open_file files stack devs counts in
      rw found (rw opens (rw values refl))
