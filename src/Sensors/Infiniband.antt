-- ===== src/Sensors/Infiniband.antt =====
-- src/infiniband.c: four counters of an InfiniBand port.
mod Tests
use mojit_os.Base.{
  if◌then◌else◌, length, get_elem?, take, replicate, All, Outcome, returns, ◌>>=◌, Ensures,
  Ensures-bind, ℕ, ◌≡◌, refl, sym, ◌∙◌, Option, none, some, List, [], ◌∷◌, ◌++◌, map,
}
use mojit_os.Base.Text.{codes, bytes_eq}
use mojit_os.Sensors.Deltas.{
  IsU64, deltas, add_into, add_into-deltas, read_values-IsU64, run, run_total,
}
use mojit_os.Sensors.Reading.{Files, read_values, AllShow, read_values-AllShow}
use mathlib.Core.List.{foldl}

abbrev pub nb_infiniband : ℕ
nb_infiniband = 4

-- The three arrays of `struct Infiniband` have `nb_infiniband` cells each.
pub record Infiniband : Type 0 where
  pub values : List ℕ
  pub tmp_values : List ℕ
  pub sources : List (Option ℕ)

-- `buffer` is the uninitialised array `char buffer[128]`.
unfoldable pub _get_infiniband : Files (Option ℕ) → List ℕ → List (Option ℕ) → Outcome (List ℕ)
unfolding read_values
_get_infiniband files buffer sources = do
  (results, _) ← read_values 127 files sources buffer
  returns results

abbrev pub filenames_infiniband : List (List ℕ)
filenames_infiniband =
    codes "/port_rcv_packets"
    ∷ codes "/port_rcv_data"
    ∷ codes "/port_xmit_packets"
    ∷ codes "/port_xmit_data"
    ∷ []

-- The port to watch: the argument, or the first that `glob` finds if the argument is X.
unfoldable pub find_port : List (List ℕ) → List ℕ → Option (List ℕ)
find_port found infi_path =
    if bytes_eq infi_path (codes "X") then get_elem? found 0 else some infi_path

-- The part of `init_infiniband` behind the choice of the port.
unfoldable pub open_port :
    (List ℕ → Option ℕ)
    → Files (Option ℕ)
    → List ℕ
    → Option (List ℕ)
    → Outcome (ℕ × Option Infiniband)
unfolding _get_infiniband
open_port open_file files buffer none = returns (0, none)
open_port open_file files buffer (some infi_path) =
    let sources = map (λ name. open_file (take 1023 (infi_path ++ name))) filenames_infiniband in
    do
      values ← _get_infiniband files buffer sources
      returns (
        nb_infiniband,
        some
            (record { values = values; tmp_values = replicate nb_infiniband 0; sources = sources }),
      )

-- `found` is what `glob` finds and `open_file` what `open` answers. The state is `none` where the
-- source leaves `*ptr` alone.
unfoldable pub init_infiniband :
    List (List ℕ)
    → (List ℕ → Option ℕ)
    → Files (Option ℕ)
    → List ℕ
    → Option (List ℕ)
    → Outcome (ℕ × Option Infiniband)
unfolding find_port open_port
init_infiniband found open_file files buffer none = returns (0, none)
init_infiniband found open_file files buffer (some infi_path) =
    open_port open_file files buffer (find_port found infi_path)

-- The return value is always `nb_infiniband`; here it is the length of the results.
unfoldable pub get_infiniband :
    Files (Option ℕ) → List ℕ → Infiniband → Outcome (List ℕ × Infiniband)
unfolding _get_infiniband
get_infiniband files buffer state = do
  tmp_values ← _get_infiniband files buffer state.sources
  returns (
    deltas tmp_values state.values,
    record state { values = tmp_values; tmp_values = tmp_values },
  )

-- The descriptors that are closed; a NULL state closes none.
unfoldable pub clean_infiniband : Option Infiniband → List (Option ℕ)
clean_infiniband none = []
clean_infiniband (some state) = state.sources

unfoldable pub label_infiniband : List (List ℕ)
label_infiniband = codes "irxp" ∷ codes "irxb" ∷ codes "itxp" ∷ codes "itxb" ∷ []

-- The last reading holds a uint64_t for each descriptor.
pub record IsInfiniband (s : Infiniband) : Type 0 where
  pub numbers : All IsU64 s.values
  pub same : length s.values ≡ length s.sources

_get_infiniband-IsU64 :
    (files : Files (Option ℕ)) (buffer : List ℕ) (sources : List (Option ℕ))
    → Ensures
        (λ (v : List ℕ). All IsU64 v × (length v ≡ length sources))
        (_get_infiniband files buffer sources)
unfolding _get_infiniband
_get_infiniband-IsU64 files buffer sources =
    Ensures-bind _ _ (read_values 127 files sources buffer) _
      (read_values-IsU64 127 files sources buffer) (λ r h. h)

get_infiniband_step :
    (files : Files (Option ℕ)) (buffer : List ℕ) (s : Infiniband)
    → IsInfiniband s
    → Ensures
        (λ (r : List ℕ × Infiniband). IsInfiniband r.1 × (add_into s.values r.0 ≡ r.1.values))
        (get_infiniband files buffer s)
unfolding get_infiniband
get_infiniband_step files buffer s v =
    Ensures-bind _ _ (_get_infiniband files buffer s.sources) _
      (_get_infiniband-IsU64 files buffer s.sources)
      (λ tmp h. (
        record { numbers = h.0; same = h.1 },
        add_into-deltas s.values tmp (h.1 ∙ sym v.same) v.numbers h.0,
      ))

-- Over any sequence of calls of `get_infiniband` that all return, the sums of the results, place by
-- place and modulo 2^64, lead from the counters' first values to their last ones: nothing that the
-- port counted is lost or reported twice.
pub get_infiniband_total :
    (calls : List (Files (Option ℕ) × List ℕ)) (s : Infiniband)
    → IsInfiniband s
    → Ensures
        (λ (r : List (List ℕ) × Infiniband). foldl add_into s.values r.0 ≡ r.1.values)
        (run (λ call. get_infiniband call.0 call.1) calls s)
get_infiniband_total calls s v =
    run_total (λ call. get_infiniband call.0 call.1) (λ st. st.values) IsInfiniband
      (λ call st h. get_infiniband_step call.0 call.1 st h) calls s v

-- When the files of all sources show numbers, `get_infiniband` reads just these, whatever the stack
-- held: the results are the differences to the last numbers, and the state keeps the new ones.
pub get_infiniband-AllShow :
    (files : Files (Option ℕ)) (buffer : List ℕ) (s : Infiniband) (numbers : List ℕ)
    → AllShow 127 files s.sources numbers
    → get_infiniband files buffer s
      ≡ returns (deltas numbers s.values, record s { values = numbers; tmp_values = numbers })
unfolding get_infiniband
get_infiniband-AllShow files buffer s numbers h =
    let (after, e) = read_values-AllShow 127 files s.sources numbers buffer h in rw e

-- No values and no state, or four values and a state with four descriptors and a first reading.
abbrev pub Started : ℕ × Option Infiniband → Type 0
Started (count, none) = count ≡ 0
Started (count, some s) =
    (count ≡ nb_infiniband) × IsInfiniband s × (length s.sources ≡ nb_infiniband)

open_port-Started :
    (open_file : List ℕ → Option ℕ) (files : Files (Option ℕ)) (buffer : List ℕ)
    (o : Option (List ℕ))
    → Ensures Started (open_port open_file files buffer o)
unfolding open_port
open_port-Started open_file files buffer none = refl
open_port-Started open_file files buffer (some path) =
    let sources = map (λ name. open_file (take 1023 (path ++ name))) filenames_infiniband in
    Ensures-bind Started (λ (v : List ℕ). All IsU64 v × (length v ≡ length sources))
      (_get_infiniband files buffer sources) _ (_get_infiniband-IsU64 files buffer sources)
      (λ v h. (refl, record { numbers = h.0; same = h.1 }, refl))

-- An `init_infiniband` that returns gives either no values and no state, or four values and a state
-- with four descriptors whose numbers are the first reading.
pub init_infiniband-Started :
    (found : List (List ℕ)) (open_file : List ℕ → Option ℕ) (files : Files (Option ℕ))
    (buffer : List ℕ) (infi_path : Option (List ℕ))
    → Ensures Started (init_infiniband found open_file files buffer infi_path)
unfolding init_infiniband
init_infiniband-Started found open_file files buffer none = refl
init_infiniband-Started found open_file files buffer (some infi_path) =
    open_port-Started open_file files buffer (find_port found infi_path)
