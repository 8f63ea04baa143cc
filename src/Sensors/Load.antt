-- ===== src/Sensors/Load.antt =====
-- src/load.c: the times that the processors spend, from /proc/stat.
mod Line
mod Totals
mod Tests
use mojit_os.Base.{
  replicate, Outcome, returns, exits, ◌>>=◌, ℕ, zero, suc, Option, none, some, List, [], ◌∷◌,
}
use mojit_os.Base.Text.{codes}
use mojit_os.Sensors.Deltas.{differences}
use mojit_os.Sensors.Reading.{pread_into, strtoull_in}
use mojit_os.Util.{skip_to_digit}

abbrev pub load_values_size : ℕ
load_values_size = 10

-- The global variables. `buffer` has 1024 bytes, of which `pread` writes the first 1023 at most, so
-- that the last one stays 0.
pub record Load : Type 0 where
  pub buffer : List ℕ
  pub load_values : List ℕ
  pub tmp_load_values : List ℕ

abbrev pub load_start : Load
load_start = record {
  buffer = replicate 1024 0;
  load_values = replicate 10 0;
  tmp_load_values = replicate 10 0;
}

-- The loop over the values, from `ptr` on.
unfoldable pub read_loads : ℕ → List ℕ → Outcome (List ℕ)
unfolding strtoull_in
read_loads zero ptr = returns []
read_loads (suc count) ptr = do
  (value, ptr') ← strtoull_in ptr
  values ← read_loads count ptr'
  returns (value ∷ values)

-- The results and the buffer. The first loop is the one of `read_int`.
unfoldable pub _get_load : Option (List ℕ) → List ℕ → Outcome (List ℕ × List ℕ)
unfolding skip_to_digit read_loads
_get_load none buffer = exits 1
_get_load (some stat) buffer = do
  ptr ← skip_to_digit (pread_into buffer 1023 stat)
  values ← read_loads load_values_size ptr
  returns (values, pread_into buffer 1023 stat)

-- `load_fid` is what `open` answers.
unfoldable pub init_load : Option ℕ → Option (List ℕ) → Load → Outcome (ℕ × Load)
unfolding _get_load
init_load none stat m = exits 1
init_load (some load_fid) stat m = do
  (values, buffer) ← _get_load stat m.buffer
  returns (load_values_size, record m { buffer = buffer; load_values = values })

-- The return value is always 10; here it is the length of the results.
unfoldable pub get_load : Option (List ℕ) → Load → Outcome (List ℕ × Load)
unfolding _get_load
get_load stat m = do
  (values, buffer) ← _get_load stat m.buffer
  returns (
    differences values m.load_values,
    record { buffer = buffer; load_values = values; tmp_load_values = values },
  )

abbrev pub label_load : List (List ℕ)
label_load =
    codes "user"
    ∷ codes "nice"
    ∷ codes "system"
    ∷ codes "idle"
    ∷ codes "iowait"
    ∷ codes "irq"
    ∷ codes "softirq"
    ∷ codes "steal"
    ∷ codes "guest"
    ∷ codes "guest_nice"
    ∷ []

-- The descriptor is closed.
unfoldable pub clean_load : ℕ → List ℕ
clean_load load_fid = load_fid ∷ []
