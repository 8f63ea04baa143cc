-- ===== src/Sensors/Network/Tests.antt =====
-- The theorems on src/network.c at concrete files.
use mojit_os.Base.{
  length, take, All, length-append, length-take, returns, ℕ, ◌+◌, ◌≤◌, ◌≡◌, refl, some, List, [],
  ◌∷◌, ◌++◌, arith,
}
use mojit_os.Base.Text.{codes, starts, bytes_eq, decimal, decimal-short}
use mojit_os.Sensors.Network.{filenames_network, Stack, sensor_path, init_network}
use mojit_os.Sensors.Network.Found.{Counts, AllCount, watching, init_network-watching}
use mojit_os.Sensors.Reading.{Opened, opened, Files}
use mojit_os.Sensors.Routes.{nb_max_dev}
use mojit_os.Sensors.Routes.Distinct.{distinct, Clear}
use mojit_os.Sensors.Routes.Rows.{Row, IsRow}
use mojit_os.Sensors.Routes.Scan.{passes-Passes}
use mojit_os.Sensors.Routes.WholeFile.{route_text}

abbrev header_of_routes : List ℕ
header_of_routes = codes "Iface\tDestination"

abbrev eth_row : Row
eth_row = record { name = codes "eth0"; rest = codes "00000000\t0102A8C0" }

abbrev wlan_row : Row
wlan_row = record { name = codes "wlan0"; rest = codes "0002A8C0" }

abbrev two_devs : List (List ℕ)
two_devs = codes "eth0" ∷ codes "wlan0" ∷ []

abbrev all_open : List ℕ → Opened
all_open path = opened (length path)

abbrev counter_files : Files ℕ
counter_files fd = some (decimal (1000 + fd) ++ (10 ∷ []))

abbrev full_stack : Stack
full_stack row = codes "7777777"

eth_row-IsRow : IsRow eth_row
eth_row-IsRow = record {
  name_ok = passes-Passes b'\t' eth_row.name refl;
  rest_ok = passes-Passes b'\n' eth_row.rest refl;
  short = omega arith;
}

wlan_row-IsRow : IsRow wlan_row
wlan_row-IsRow = record {
  name_ok = passes-Passes b'\t' wlan_row.name refl;
  rest_ok = passes-Passes b'\n' wlan_row.rest refl;
  short = omega arith;
}

abbrev three_names : List (List ℕ)
three_names = codes "eth0" ∷ codes "wlan0" ∷ codes "eth0" ∷ []

three_names-Clear : Clear three_names three_names
unfolding starts
three_names-Clear = (
  ((λ _. refl), ((λ h. cc), ((λ _. refl), tt))),
  (
    ((λ h. cc), ((λ _. refl), ((λ h. cc), tt))),
    (((λ _. refl), ((λ h. cc), ((λ _. refl), tt))), tt),
  ),
)

two_distinct : two_devs ≡ take nb_max_dev (distinct [] three_names)
unfolding bytes_eq
two_distinct = refl

all_open-Counts :
    (path : List ℕ)
    → length path ≤ 100
    → Counts (λ p. length p) (λ p. 1000 + length p) all_open counter_files path
all_open-Counts path h = record {
  opens = refl;
  shows = record {
    end = 10;
    more = [];
    content = refl;
    ends = refl;
    fits = omega arith;
    reached = omega (arith, decimal-short (1000 + length path) (omega arith));
  };
}

four_counters :
    (dev : List ℕ)
    → length dev ≤ 10
    → All
        (λ (name : List ℕ).
          Counts
            (λ p. length p)
            (λ p. 1000 + length p)
            all_open
            counter_files
            (sensor_path dev name))
        filenames_network
four_counters dev h = (
  all_open-Counts (sensor_path dev (codes "/statistics/rx_packets"))
      (short (codes "/statistics/rx_packets") (omega arith)),
  (
    all_open-Counts (sensor_path dev (codes "/statistics/rx_bytes"))
        (short (codes "/statistics/rx_bytes") (omega arith)),
    (
      all_open-Counts (sensor_path dev (codes "/statistics/tx_packets"))
          (short (codes "/statistics/tx_packets") (omega arith)),
      (
        all_open-Counts (sensor_path dev (codes "/statistics/tx_bytes"))
            (short (codes "/statistics/tx_bytes") (omega arith)),
        tt,
      ),
    ),
  ),
)
  where
    short : (name : List ℕ) → length name ≤ 30 → length (sensor_path dev name) ≤ 100
    short name g = omega (
      arith,
      h,
      length-append dev name,
      length-take 255 (codes "/sys/class/net/" ++ (dev ++ name)),
    )

two_devs-AllCount : AllCount (λ p. length p) (λ p. 1000 + length p) all_open counter_files two_devs
two_devs-AllCount =
    (four_counters (codes "eth0") (omega arith), (four_counters (codes "wlan0") (omega arith), tt))

init_network-watching_example :
    init_network
      (some (some (route_text header_of_routes (eth_row ∷ wlan_row ∷ eth_row ∷ [])) ∷ []))
      all_open
      counter_files
      full_stack
      (some (codes "X"))
    ≡ returns (8, watching (λ p. length p) (λ p. 1000 + length p) two_devs)
init_network-watching_example =
    init_network-watching (λ p. length p) (λ p. 1000 + length p) all_open counter_files full_stack
      header_of_routes eth_row (wlan_row ∷ eth_row ∷ []) two_devs
      (passes-Passes b'\n' header_of_routes refl) eth_row-IsRow
      (wlan_row-IsRow, (eth_row-IsRow, tt)) three_names-Clear (omega arith) two_distinct
      two_devs-AllCount
