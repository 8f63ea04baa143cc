-- ===== src/Sources/Keep.antt =====
-- The sources of the table and the laws that src/libmojitos.c relies on.
use mojit_os.Base.{
  some-eq-some, length, get_elem?, take, length-map, Outcome, returns, ◌>>=◌, Safely, Safely-bind,
  Safely-mono, >>=_assoc, ℕ, zero, suc, ◌<◌, ◌≡◌, refl, sym, ◌∙◌, ◌⊎◌, inl, inr, Option, none, some,
  List, [], ◌∷◌, ◌++◌, map,
}
use mojit_os.Libmojitos.{
  Getter, Sensor, Moj, Stage, goes_on, exits_at, breaks, moj_init, moj_get_values,
}
use mojit_os.Libmojitos.Invariant.{Laws, IsValid, Stands, IsFine, Interrupted, moj_init-IsValid}
use mojit_os.Libmojitos.Options.{IsTable, sensors_of, options_of, IsAction, HasActions}
use mojit_os.Libmojitos.Values.{moj_get_values-IsValid}
use mojit_os.Sensors.Deltas.{deltas, length-deltas}
use mojit_os.Sensors.Infiniband.{
  nb_infiniband, Infiniband, _get_infiniband, filenames_infiniband, find_port, open_port,
  init_infiniband, get_infiniband, label_infiniband,
}
use mojit_os.Sensors.Memory.{SysInfo, init_memory, get_memory, label_memory}
use mojit_os.Sensors.Reading.{read_values}
use mojit_os.Sensors.Temperature.{Temperature, get_temperature, label_temperature}
use mojit_os.Sensors.Temperature.Chips.{init_temperature-ShowsChips}
use mojit_os.Sensors.Temperature.Tree.{Chip, ShowsChips, chips_size}
use mojit_os.Sources.{
  Source, memory_source, port_source, temps_source, System, Answers, ReadableSystem, Closed,
  get_memory_source, get_port_source, get_temps_source, memory_sensor, init_port, infiniband_sensor,
  init_temps, temperature_sensor, source_table,
}
use mojit_os.Sources.Reads.{read_values-Answers, with_chips-Even}
use mathlib.Core.Path.{subst}

-- How many values a source gives from a state on.
abbrev pub Size : Source → ℕ → Type 0
Size memory_source n = n ≡ 10
Size (port_source none) n = ⊥
Size (port_source (some s)) n =
    (n ≡ nb_infiniband) × (length s.sources ≡ nb_infiniband) × (length s.values ≡ nb_infiniband)
Size (temps_source buffer t) n = n ≡ length t.fid_list

-- The getter that belongs to a state.
abbrev pub getter_of : Source → Getter ReadableSystem Source
getter_of memory_source = λ w state. get_memory_source w.system state
getter_of (port_source s) = λ w state. get_port_source w.system state
getter_of (temps_source buffer t) = λ w state. get_temps_source w.system state

abbrev pub Keeps : Getter ReadableSystem Source → ℕ → Source → Type 0
Keeps g n state = (g ≡ getter_of state) × Size state n

abbrev pub Gives : Source → ℕ → ℕ × List (Option ℕ) × Source → Type 0
Gives state n (count, results, state') =
    (count ≡ n) × (length results ≡ n) × (getter_of state ≡ getter_of state') × Size state' n

get_memory_source-Gives :
    (w : System) (n : ℕ)
    → n ≡ 10
    → Safely (Gives memory_source n) (get_memory_source w memory_source)
unfolding get_memory_source get_memory
get_memory_source-Gives w n e = answer w.sysinfo
  where
    answer :
        (o : Option SysInfo)
        → Safely (Gives memory_source n) (
            get_memory o >>= λ (results : List ℕ).
            returns (length results, map some results, memory_source))
    answer none = tt
    answer (some info) = (sym e, sym e, refl, e)

_get_infiniband-Answers :
    (w : System) (sources : List (Option ℕ))
    → ((fd : Option ℕ) → Answers 127 w.port_files fd)
    → Safely
        (λ (v : List ℕ). length v ≡ length sources)
        (_get_infiniband w.port_files w.stack sources)
unfolding _get_infiniband
_get_infiniband-Answers w sources h =
    Safely-bind _ _ (read_values 127 w.port_files sources w.stack) _
      (read_values-Answers 127 w.port_files sources w.stack h) (λ r hr. hr)

get_port_source-Gives :
    (w : System) (n : ℕ) (s : Infiniband)
    → ((fd : Option ℕ) → Answers 127 w.port_files fd)
    → Size (port_source (some s)) n
    → Safely (Gives (port_source (some s)) n) (get_port_source w (port_source (some s)))
unfolding get_port_source get_infiniband
get_port_source-Gives w n s h (e, four, held) =
    rw (>>=_assoc (_get_infiniband w.port_files w.stack s.sources) _ _) (
      Safely-bind (Gives (port_source (some s)) n) (λ (v : List ℕ). length v ≡ length s.sources)
        (_get_infiniband w.port_files w.stack s.sources) _ (_get_infiniband-Answers w s.sources h)
        (λ tmp long.
          let count : length (deltas tmp s.values) ≡ n =
            length-deltas tmp s.values (long ∙ four ∙ sym held) ∙ held ∙ sym e in
          (count, length-map some (deltas tmp s.values) ∙ count, refl, (e, four, long ∙ four))))

get_temps_source-Gives :
    (w : System) (n : ℕ) (buffer : List ℕ) (t : Temperature)
    → ((fd : ℕ) → Answers 100 w.temp_files fd)
    → n ≡ length t.fid_list
    → Safely (Gives (temps_source buffer t) n) (get_temps_source w (temps_source buffer t))
unfolding get_temps_source get_temperature
get_temps_source-Gives w n buffer t h e =
    rw (>>=_assoc (read_values 100 w.temp_files t.fid_list buffer) _ _) (
      Safely-bind (Gives (temps_source buffer t) n)
        (λ (r : List ℕ × List ℕ). length r.0 ≡ length t.fid_list)
        (read_values 100 w.temp_files t.fid_list buffer) _
        (read_values-Answers 100 w.temp_files t.fid_list buffer h)
        (λ r long. (long ∙ sym e, length-map some r.0 ∙ long ∙ sym e, refl, e)))

-- What a start leaves: no values, or a source that gives as many as it announces, with their labels.
abbrev pub Ready : Sensor ReadableSystem Source Closed → ℕ × Source → Type 0
Ready s (n, state) = (n ≡ 0) ⊎ (Keeps s.get n state × (length (s.label state) ≡ n))

init_memory-Ready : (o : Option SysInfo) → Ready memory_sensor (init_memory o, memory_source)
unfolding init_memory label_memory
init_memory-Ready none = inl refl
init_memory-Ready (some info) = inr ((refl, refl), refl)

open_port-Ready :
    (w : System) (o : Option (List ℕ))
    → ((fd : Option ℕ) → Answers 127 w.port_files fd)
    → Safely
        (λ (r : ℕ × Option Infiniband). Ready infiniband_sensor (r.0, port_source r.1))
        (open_port w.open_port_file w.port_files w.stack o)
unfolding open_port label_infiniband
open_port-Ready w none h = inl refl
open_port-Ready w (some path) h =
    let sources = map (λ name. w.open_port_file (take 1023 (path ++ name))) filenames_infiniband in
    Safely-bind _ (λ (v : List ℕ). length v ≡ length sources)
      (_get_infiniband w.port_files w.stack sources) _ (_get_infiniband-Answers w sources h)
      (λ v long. inr ((refl, (refl, refl, long)), refl))

init_port-Ready :
    (w : System) (arg : Option (List ℕ))
    → ((fd : Option ℕ) → Answers 127 w.port_files fd)
    → Safely (Ready infiniband_sensor) (init_port w arg)
unfolding init_port init_infiniband
init_port-Ready w none h = inl refl
init_port-Ready w (some path) h =
    Safely-bind (Ready infiniband_sensor)
      (λ (r : ℕ × Option Infiniband). Ready infiniband_sensor (r.0, port_source r.1))
      (open_port w.open_port_file w.port_files w.stack (find_port w.ports path)) _
      (open_port-Ready w (find_port w.ports path) h) (λ r hr. hr)

init_temps-Ready :
    (w : System) (arg : Option (List ℕ)) (chips : List Chip)
    → chips_size chips < w.rounds
    → ShowsChips w.hwmon 0 chips
    → Safely (Ready temperature_sensor) (init_temps w arg)
unfolding init_temps label_temperature
init_temps-Ready w arg chips f h =
    let even = with_chips-Even chips (w.key, record { label_list = []; fid_list = [] }) refl in
    rw (init_temperature-ShowsChips w.rounds w.hwmon w.key chips f h) (inr ((refl, even), refl))

getter_of-Gives :
    (w : ReadableSystem) (n : ℕ) (state : Source)
    → Size state n
    → Safely (Gives state n) (getter_of state w state)
getter_of-Gives w n memory_source h = get_memory_source-Gives w.system n h
getter_of-Gives w n (port_source none) h = absurd h
getter_of-Gives w n (port_source (some s)) h =
    get_port_source-Gives w.system n s w.readable.ports_ok h
getter_of-Gives w n (temps_source buffer t) h =
    get_temps_source-Gives w.system n buffer t w.readable.temps_ok h

pub source_get_ok :
    (g : Getter ReadableSystem Source) (n : ℕ) (state : Source)
    → Keeps g n state
    → (w : ReadableSystem)
    → Safely
        (λ (r : ℕ × List (Option ℕ) × Source). (r.0 ≡ n) × (length r.1 ≡ n) × Keeps g n r.2)
        (g w state)
source_get_ok g n state (e, size) w =
    subst
      (λ (f : Getter ReadableSystem Source).
        Safely (λ (r : ℕ × List (Option ℕ) × Source). (r.0 ≡ n) × (length r.1 ≡ n) × Keeps g n r.2)
          (f w state))
      (sym e)
      (Safely-mono (Gives state n)
        (λ (r : ℕ × List (Option ℕ) × Source). (r.0 ≡ n) × (length r.1 ≡ n) × Keeps g n r.2)
        (getter_of state w state) (λ r h. (h.0, h.1, (e ∙ h.2, h.3)))
        (getter_of-Gives w n state size))

pub source_table-Ready :
    (i : ℕ) (s : Sensor ReadableSystem Source Closed)
    → get_elem? (sensors_of source_table) i ≡ some s
    → (w : ReadableSystem) (arg : Option (List ℕ)) → Safely (Ready s) (s.init w arg)
source_table-Ready zero s e w arg =
    subst (λ (t : Sensor ReadableSystem Source Closed). Safely (Ready t) (t.init w arg))
      (some-eq-some e) (init_memory-Ready w.system.sysinfo)
source_table-Ready (suc zero) s e w arg =
    subst (λ (t : Sensor ReadableSystem Source Closed). Safely (Ready t) (t.init w arg))
      (some-eq-some e) (init_port-Ready w.system arg w.readable.ports_ok)
source_table-Ready (suc (suc zero)) s e w arg =
    subst (λ (t : Sensor ReadableSystem Source Closed). Safely (Ready t) (t.init w arg))
      (some-eq-some e)
      (init_temps-Ready w.system arg w.readable.chips w.readable.rounds_ok w.readable.chips_ok)
source_table-Ready (suc (suc (suc i))) s e w arg = cc

-- The laws of libmojitos.c hold of these sensors.
abbrev pub source_laws : Laws (sensors_of source_table)
source_laws = record { Ok = Keeps; init_ok = source_table-Ready; get_ok = source_get_ok }

pub source_table-IsTable : IsTable source_table
source_table-IsTable = (refl, (refl, (refl, tt)))

no_function : (c : ℕ) → IsAction (record { shortname = c; fn = none })
no_function c f e = cc

pub source_table-HasActions : HasActions source_table
source_table-HasActions =
    ((no_function b'm', tt), ((no_function b'i', tt), ((no_function b'c', tt), tt)))

-- Any number of calls of `moj_get_values`, one after the other.
abbrev pub call_all :
    List ReadableSystem
    → Moj ReadableSystem Source Closed
    → Outcome (Moj ReadableSystem Source Closed)
call_all [] m = returns m
call_all (now ∷ later) m = do m' ← moj_get_values now m; call_all later m'

call_all-IsValid :
    (later : List ReadableSystem) (m : Moj ReadableSystem Source Closed)
    → IsValid (sensors_of source_table) source_laws m
    → Safely (IsValid (sensors_of source_table) source_laws) (call_all later m)
call_all-IsValid [] m v = v
call_all-IsValid (now ∷ later) m v =
    Safely-bind (IsValid (sensors_of source_table) source_laws)
      (IsValid (sensors_of source_table) source_laws) (moj_get_values now m) _
      (moj_get_values-IsValid (sensors_of source_table) source_laws now m v)
      (λ m' v'. call_all-IsValid later m' v')

-- On systems whose counters hold numbers and whose tree of temperatures is whole, whatever options are
-- given, if `moj_init` returns with the sensors of memory, InfiniBand and temperature, then any number
-- of calls of `moj_get_values` behind it write in bounds and leave arrays that fit together, or end the
-- process; and `moj_init` itself has no undefined behaviour.
pub sources-IsValid :
    (start : ReadableSystem) (options : List (ℕ × Option (List ℕ)))
    → Stands
        (λ (m : Moj ReadableSystem Source Closed).
          (later : List ReadableSystem)
          → Safely (IsValid (sensors_of source_table) source_laws) (call_all later m))
        (Interrupted source_table source_laws)
        (moj_init start (options_of source_table ++ []) (sensors_of source_table) options)
sources-IsValid start options =
    kept (moj_init start (options_of source_table ++ []) (sensors_of source_table) options) (
      moj_init-IsValid source_table source_laws start [] options source_table-IsTable
        source_table-HasActions)
  where
    kept :
        (stage : Stage (Moj ReadableSystem Source Closed))
        → Stands (IsFine source_table source_laws) (Interrupted source_table source_laws) stage
        → Stands
            (λ (m : Moj ReadableSystem Source Closed).
              (later : List ReadableSystem)
              → Safely (IsValid (sensors_of source_table) source_laws) (call_all later m))
            (Interrupted source_table source_laws)
            stage
    kept (goes_on m) v = λ later. call_all-IsValid later m v
    kept (exits_at code m) h = h
    kept breaks h = h
