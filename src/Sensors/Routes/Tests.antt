-- ===== src/Sensors/Routes/Tests.antt =====
-- The theorems on the route file at concrete files.
use mojit_os.Base.{Outcome, returns, exits, faults, ℕ, ◌≡◌, refl, none, some, List, [], ◌∷◌, ◌++◌}
use mojit_os.Base.Text.{codes}
use mojit_os.Sensors.Routes.{enough, route_search, read_routes}
use mojit_os.Sensors.Routes.Ending.{read_routes-Ended}

abbrev row_of : List ℕ → List ℕ
row_of name = name ++ codes "\t00000000\t0102A8C0\t0003\n"

abbrev header_line : List ℕ
header_line = codes "Iface\tDestination\tGateway \tFlags\n"

test_routes :
    read_routes (
      some (
        header_line ++ (row_of (codes "eth0") ++ (row_of (codes "wlan0") ++ row_of (codes "eth0"))))
      ∷ [])
    ≡ returns (codes "eth0" ∷ codes "wlan0" ∷ [])
unfolding read_routes
test_routes = refl

test_prefix :
    read_routes (some (header_line ++ (row_of (codes "eth10") ++ row_of (codes "eth1"))) ∷ [])
    ≡ returns (codes "eth10" ∷ [])
unfolding read_routes
test_prefix = refl

test_no_route : read_routes (some header_line ∷ []) ≡ exits 1
unfolding read_routes
test_no_route = refl

test_no_line : read_routes (some (codes "abc") ∷ []) ≡ faults
unfolding read_routes
test_no_line = refl

-- The second `read` overwrites the front of the buffer while `start_of_dev` still points behind it, so
-- that what is left there of the first `read` is taken for a device.
test_split :
    read_routes (
      some (header_line ++ (row_of (codes "eth0") ++ codes "wl"))
      ∷ some (codes "an0\t00000000\t0102A8C0\n")
      ∷ [])
    ≡ returns (codes "eth0" ∷ codes "wl" ∷ codes "way " ∷ [])
unfolding read_routes
test_split = refl

read_routes-Ended_example :
    (o : Outcome (List (List ℕ))) × (route_search
        (enough (some header_line ∷ none ∷ []))
        (some header_line ∷ none ∷ [])
      ≡ some o)
    × (read_routes (some header_line ∷ none ∷ []) ≡ o)
read_routes-Ended_example = read_routes-Ended (some header_line ∷ none ∷ [])
