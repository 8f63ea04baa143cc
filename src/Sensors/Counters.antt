-- ===== src/Sensors/Counters.antt =====
-- src/counters.c: performance counters, summed over the cores.
mod Names
mod Listing
mod Totals
mod Tests
use mojit_os.Base.{
  if◌then◌else◌, length, get_elem?, Outcome, returns, exits, faults, ◌>>=◌, ℕ, zero, suc, ◌+◌, ◌%◌,
  Option, none, some, List, [], ◌∷◌, ◌++◌, map,
}
use mojit_os.Base.Text.{u64_mod, bytes_eq, tokens}
use mojit_os.Sensors.Deltas.{deltas}

-- An entry of `perf_static_info`, the table of the generated counters_option.h.
pub record PerfInfo : Type 0 where
  pub name : List ℕ
  pub perf_type : ℕ
  pub perf_key : ℕ

-- `nbperf` is the length of `counters`, whose rows hold a descriptor for each core.
pub record Counter : Type 0 where
  pub nbcores : ℕ
  pub counters : List (List ℕ)
  pub counters_values : List ℕ
  pub tmp_counters_values : List ℕ
  pub perf_indexes : List ℕ

-- The lines that it prints, and its end.
unfoldable pub show_all_counters : List PerfInfo → List (List ℕ) × Outcome (Unit {0})
show_all_counters infos = (map (λ (info : PerfInfo). info.name ++ (b'\n' ∷ [])) infos, exits 0)

-- The loop over the table from index `i` on: the index of the name, if it is there.
unfoldable pub find_perf : List ℕ → List PerfInfo → ℕ → Option ℕ
find_perf token [] i = none
find_perf token (info ∷ infos) i =
    let later = find_perf token infos (i + 1) in if bytes_eq info.name token then some i else later

unfoldable pub known_perf : Option ℕ → Outcome ℕ
known_perf none = exits 1
known_perf (some i) = returns i

-- The loop over the tokens.
unfoldable pub list_perfs : List PerfInfo → List (List ℕ) → Outcome (List ℕ)
unfolding find_perf known_perf
list_perfs infos [] = returns []
list_perfs infos (token ∷ rest) = do
  i ← known_perf (find_perf token infos 0)
  perf_indexes ← list_perfs infos rest
  returns (i ∷ perf_indexes)

-- `perf_indexes`; `nb_perf` is its length.
unfoldable pub perf_event_list : List PerfInfo → List ℕ → Outcome (List ℕ)
unfolding list_perfs tokens
perf_event_list infos perf_string = list_perfs infos (tokens b',' perf_string)

-- An access to the table; outside of it that is undefined.
unfoldable pub static_info : List PerfInfo → ℕ → Outcome PerfInfo
static_info infos i = elim (get_elem? infos i) [ none ↦ faults | some info ↦ returns info ]

-- The types and the keys.
unfoldable pub perf_type_key : List PerfInfo → List ℕ → Outcome (List (ℕ × ℕ))
unfolding static_info
perf_type_key infos [] = returns []
perf_type_key infos (i ∷ indexes) = do
  info ← static_info infos i
  rest ← perf_type_key infos indexes
  returns ((info.perf_type, info.perf_key) ∷ rest)

-- `syscall(__NR_perf_event_open, …)` for a type, a key and a core; `none` is -1.
abbrev pub OpenPerf : Type 0
OpenPerf = ℕ → ℕ → ℕ → Option ℕ

unfoldable pub perf_event_open : OpenPerf → ℕ → ℕ → ℕ → Outcome ℕ
perf_event_open sys type config cpu = elim (sys type config cpu) [
  | none ↦ exits 1
  | some res ↦ returns res
]

-- `for (unsigned int core = 0; core < nbcores; core++)` from `core` on.
unfoldable pub open_cores : OpenPerf → ℕ → ℕ → ℕ → ℕ → Outcome (List ℕ)
unfolding perf_event_open
open_cores sys type config core zero = returns []
open_cores sys type config core (suc left) = do
  fd ← perf_event_open sys type config core
  fds ← open_cores sys type config (core + 1) left
  returns (fd ∷ fds)

unfoldable pub open_counters : OpenPerf → ℕ → List (ℕ × ℕ) → Outcome (List (List ℕ))
unfolding open_cores
open_counters sys nbcores [] = returns []
open_counters sys nbcores ((type, config) ∷ rest) = do
  fds ← open_cores sys type config 0 nbcores
  counters ← open_counters sys nbcores rest
  returns (fds ∷ counters)

-- The descriptors that `ioctl` enables, in order.
unfoldable pub start_counters : List (List ℕ) → List ℕ
start_counters [] = []
start_counters (fds ∷ counters) = fds ++ start_counters counters

-- The descriptors that `ioctl` resets, in order.
unfoldable pub reset_counters : List (List ℕ) → List ℕ
reset_counters [] = []
reset_counters (fds ∷ counters) = fds ++ reset_counters counters

-- `read(fd, &count, 8)`: -1, no bytes, or a count.
pub data CountRead : Type 0 where
  failed : CountRead
  nothing : CountRead
  has_count : ℕ → CountRead

-- One round over the cores: `count` keeps its value where nothing is read.
unfoldable pub read_count : CountRead → ℕ → Outcome ℕ
read_count failed count = exits 1
read_count nothing count = returns count
read_count (has_count n) count = returns (n % u64_mod)

unfoldable pub sum_cores : (ℕ → CountRead) → List ℕ → ℕ → ℕ → Outcome ℕ
unfolding read_count
sum_cores reads [] accu count = returns accu
sum_cores reads (fd ∷ fds) accu count = do
  count' ← read_count (reads fd) count
  sum_cores reads fds ((accu + count') % u64_mod) count'

unfoldable pub _get_counters : (ℕ → CountRead) → List (List ℕ) → Outcome (List ℕ)
unfolding sum_cores
_get_counters reads [] = returns []
_get_counters reads (fds ∷ counters) = do
  value ← sum_cores reads fds 0 0
  values ← _get_counters reads counters
  returns (value ∷ values)

-- The return value `nb_perf`, the descriptors that are enabled, and the state. `nbcores` is what
-- `sysconf` answers.
unfoldable pub init_counters :
    List PerfInfo → OpenPerf → ℕ → (ℕ → CountRead) → List ℕ → Outcome (ℕ × List ℕ × Counter)
unfolding perf_event_list perf_type_key open_counters start_counters _get_counters
init_counters infos sys nbcores reads args = do
  perf_indexes ← perf_event_list infos args
  types ← perf_type_key infos perf_indexes
  counters ← open_counters sys nbcores types
  values ← _get_counters reads counters
  returns (
    length perf_indexes,
    start_counters counters,
    record {
      nbcores = nbcores;
      counters = counters;
      counters_values = values;
      tmp_counters_values = values;
      perf_indexes = perf_indexes;
    },
  )

-- The return value is `nbperf`; here it is the length of the results.
unfoldable pub get_counters : (ℕ → CountRead) → Counter → Outcome (List ℕ × Counter)
unfolding _get_counters
get_counters reads state = do
  tmp ← _get_counters reads state.counters
  returns (
    deltas tmp state.counters_values,
    record state { counters_values = tmp; tmp_counters_values = tmp },
  )

unfoldable pub label_perfs : List PerfInfo → List ℕ → Outcome (List (List ℕ))
unfolding static_info
label_perfs infos [] = returns []
label_perfs infos (i ∷ perf_indexes) = do
  info ← static_info infos i
  labels ← label_perfs infos perf_indexes
  returns (info.name ∷ labels)

unfoldable pub label_counters : List PerfInfo → Counter → Outcome (List (List ℕ))
unfolding label_perfs
label_counters infos state = label_perfs infos state.perf_indexes

-- The descriptors that are closed, in order.
unfoldable pub clean_counters : List (List ℕ) → List ℕ
clean_counters [] = []
clean_counters (fds ∷ counters) = fds ++ clean_counters counters
