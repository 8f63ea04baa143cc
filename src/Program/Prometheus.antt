-- ===== src/Program/Prometheus.antt =====
-- src/prometheus_manager.c: the lines that wait for a request. The mutex makes the additions of lines
-- and the answers to requests atomic, so that a run is a sequence of these.
mod Room
mod Lines
mod Queue
mod Tests
use mojit_os.Base.{
  ltb, leb, ◌==◌, if◌then◌else◌, length, Outcome, returns, exits, faults, ◌>>=◌, ℕ, ◌+◌, ◌*◌, ◌/◌,
  ◌%◌, ◌^◌, Bool, true, false, Option, none, some, List, [], ◌∷◌, ◌++◌, map,
}
use mojit_os.Base.Text.{u64_mod, codes, atoi, decimal}

-- The loop over `strchr`: every hyphen becomes an underscore.
unfoldable pub clean_label : List ℕ → List ℕ
clean_label [] = []
clean_label (c ∷ s) = (if c == b'-' then b'_' else c) ∷ clean_label s

-- `__labels`
unfoldable pub clean_labels : List (List ℕ) → List (List ℕ)
unfolding clean_label
clean_labels labels = map clean_label labels

-- `port` for `MHD_start_daemon`, as a 32-bit pattern.
unfoldable pub port_of : Option (List ℕ) → ℕ
unfolding atoi
port_of none = 9999
port_of (some output_option) = atoi output_option

-- The first `delta` bytes of `prometeus_buffer`, which has `current_size + 1` bytes.
pub record Exporter : Type 0 where
  pub page : List ℕ
  pub current_size : ℕ

-- `started` is whether `MHD_start_daemon` gives a daemon.
unfoldable pub init_manager_prometheus : Bool → Outcome Exporter
init_manager_prometheus started =
    if started then returns (record { page = []; current_size = 1024 }) else exits 1

-- `"%s %u %u\n"`
abbrev pub line_of : List ℕ → ℕ → ℕ → List ℕ
line_of label value timer =
    label ++ (b' ' ∷ (decimal value ++ (b' ' ∷ (decimal timer ++ (10 ∷ [])))))

-- `sprintf` at `delta`; with its NUL, the text must fit in `current_size + 1` bytes.
unfoldable pub print_line : List ℕ → Exporter → Outcome Exporter
print_line text e =
    if ltb e.current_size (length e.page + length text)
    then faults
    else returns (record e { page = e.page ++ text })

-- The growth of the buffer behind a line.
unfoldable pub grow : Exporter → Exporter
grow e =
    if leb e.current_size (length e.page + 128)
    then record e { current_size = e.current_size * 2 % 2 ^ 32 }
    else e

-- `timer`, from the time of the round.
abbrev pub milliseconds : ℕ → ℕ → ℕ
milliseconds tv_sec tv_nsec = (tv_sec * 1000 + tv_nsec / 1000000) % u64_mod

-- The loop over the values.
unfoldable pub print_values : ℕ → List (List ℕ) → List ℕ → Exporter → Outcome Exporter
unfolding print_line grow
print_values timer labels [] e = returns e
print_values timer [] (v ∷ values) e = faults
print_values timer (label ∷ labels) (v ∷ values) e = do
  e' ← print_line (line_of label v timer) e
  print_values timer labels values (grow e')

unfoldable pub use_manager_prometheus : List (List ℕ) → ℕ → List ℕ → ℕ → Exporter → Outcome Exporter
unfolding print_values print_line
use_manager_prometheus labels timer values stat_data e = do
  e' ← print_values timer labels values e
  if stat_data == 0 then returns e' else print_line (line_of (codes "overhead") stat_data timer) e'

-- What the server answers: refuse the request, go on, or a page.
pub data Answer : Type 0 where
  refuse : Answer
  proceed : Answer
  respond : List ℕ → Answer

-- `internal_server`: `get` is whether the method is GET, and `seen` whether `*ptr` is set.
unfoldable pub internal_server : Bool → Bool → Exporter → Answer × Exporter
internal_server false seen e = (refuse, e)
internal_server true false e = (proceed, e)
internal_server true true e = (respond e.page, record e { page = [] })
