-- ===== src/Sensors/Network/Totals.antt =====
-- The results of src/network.c over a run, and what they are read from.
use mojit_os.Base.{
  length, All, Ensures, Ensures-bind, ℕ, ◌+◌, ◌%◌, ◌≡◌, refl, sym, ap, ◌∙◌, List, [], ◌∷◌, ◌++◌,
  arith,
}
use mojit_os.Base.Text.{u64_mod}
use mojit_os.Sensors.Deltas.{
  IsU64, deltas, add_into, add_into-deltas, length-deltas, read_values-IsU64, run, run_total,
}
use mojit_os.Sensors.Network.{Network, Stack, _get_network, get_all, get_devices, get_network, flat}
use mojit_os.Sensors.Reading.{Files, read_values}
use mathlib.Core.List.{foldl}

-- A row of numbers for each row of descriptors.
abbrev pub Measured : List (List ℕ) → List (List ℕ) → Type 0
Measured [] [] = Unit
Measured [] (v ∷ values) = ⊥
Measured (row ∷ sources) [] = ⊥
Measured (row ∷ sources) (v ∷ values) =
    All IsU64 v × (length v ≡ length row) × Measured sources values

_get_network-IsU64 :
    (files : Files ℕ) (stack : Stack) (row : List ℕ)
    → Ensures (λ (v : List ℕ). All IsU64 v × (length v ≡ length row)) (_get_network files stack row)
unfolding _get_network
_get_network-IsU64 files stack row =
    Ensures-bind _ _ (read_values 127 files row (stack row)) _
      (read_values-IsU64 127 files row (stack row)) (λ r h. h)

pub get_all-Measured :
    (files : Files ℕ) (stack : Stack) (sources : List (List ℕ))
    → Ensures (Measured sources) (get_all files stack sources)
unfolding get_all
get_all-Measured files stack [] = tt
get_all-Measured files stack (row ∷ sources) =
    Ensures-bind _ _ (_get_network files stack row) _ (_get_network-IsU64 files stack row) (λ v hv.
      Ensures-bind _ _ (get_all files stack sources) _ (get_all-Measured files stack sources)
        (λ more hm. (hv.0, hv.1, hm)))

add_into-append :
    (a c b d : List ℕ)
    → length a ≡ length c
    → add_into (a ++ b) (c ++ d) ≡ add_into a c ++ add_into b d
add_into-append [] [] b d h = refl
add_into-append [] (y ∷ c) b d h = absurd (omega arith)
add_into-append (x ∷ a) [] b d h = absurd (omega arith)
add_into-append (x ∷ a) (y ∷ c) b d h =
    ap (λ l. (x + y) % u64_mod ∷ l) (add_into-append a c b d (omega arith))

-- The new rows are measured, and the results lead to them.
abbrev Advances : List (List ℕ) → List (List ℕ) → List ℕ × List (List ℕ) → Type 0
Advances sources values (results, new) =
    Measured sources new × (add_into (flat values) results ≡ flat new)

get_devices-Advances :
    (files : Files ℕ) (stack : Stack) (sources values : List (List ℕ))
    → Measured sources values
    → Ensures (Advances sources values) (get_devices files stack sources values)
unfolding get_devices
get_devices-Advances files stack [] [] h = (tt, refl)
get_devices-Advances files stack [] (v ∷ values) h = absurd h
get_devices-Advances files stack (row ∷ sources) [] h = absurd h
get_devices-Advances files stack (row ∷ sources) (v ∷ values) (hv, same, h) =
    Ensures-bind (Advances (row ∷ sources) (v ∷ values))
      (λ (tmp : List ℕ). All IsU64 tmp × (length tmp ≡ length row)) (_get_network files stack row) _
      (_get_network-IsU64 files stack row)
      (λ tmp ht.
        Ensures-bind (Advances (row ∷ sources) (v ∷ values)) (Advances sources values)
          (get_devices files stack sources values) _
          (get_devices-Advances files stack sources values h) (λ r hr. joined tmp ht r hr))
  where
    joined :
        (tmp : List ℕ)
        → All IsU64 tmp × (length tmp ≡ length row)
        → (r : List ℕ × List (List ℕ)) → Advances sources values r
        → Advances (row ∷ sources) (v ∷ values) (deltas tmp v ++ r.0, tmp ∷ r.1)
    joined tmp (ht, long) (results, new) (measured, leads) =
        let size : length tmp ≡ length v = long ∙ sym same in
        (
          (ht, long, measured),
          add_into-append v (deltas tmp v) (flat values) results (sym (length-deltas tmp v size))
              ∙ ap (λ l. l ++ add_into (flat values) results) (add_into-deltas v tmp size hv ht)
              ∙ ap (λ l. tmp ++ l) leads,
        )

abbrev pub IsNetwork : Network → Type 0
IsNetwork s = Measured s.sources s.values

get_network-IsNetwork :
    (files : Files ℕ) (stack : Stack) (s : Network)
    → IsNetwork s
    → Ensures
        (λ (r : List ℕ × Network). IsNetwork r.1 × (add_into (flat s.values) r.0 ≡ flat r.1.values))
        (get_network files stack s)
unfolding get_network
get_network-IsNetwork files stack s h =
    Ensures-bind _ (Advances s.sources s.values) (get_devices files stack s.sources s.values) _
      (get_devices-Advances files stack s.sources s.values h) (λ r hr. hr)

-- Over any sequence of calls of `get_network` that all return, the sums of the results, place by place
-- and modulo 2^64, lead from the first numbers of all devices to the last ones.
pub get_network_total :
    (calls : List (Files ℕ × Stack)) (s : Network)
    → IsNetwork s
    → Ensures
        (λ (r : List (List ℕ) × Network). foldl add_into (flat s.values) r.0 ≡ flat r.1.values)
        (run (λ call. get_network call.0 call.1) calls s)
get_network_total calls s h =
    run_total (λ call. get_network call.0 call.1) (λ st. flat st.values) IsNetwork
      (λ call st hs. get_network-IsNetwork call.0 call.1 st hs) calls s h
