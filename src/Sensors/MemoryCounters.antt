-- ===== src/Sensors/MemoryCounters.antt =====
-- src/memory_counters.c: lines of /proc/meminfo. The names are the table `memory_counters` of the
-- generated memory_option.h, and NB_COUNTERS is their number.
mod Selection
mod Update
mod Tests
use mojit_os.Base.{
  ltb, if◌then◌else◌, length, get_elem?, set, Outcome, returns, exits, faults, ◌>>=◌, ℕ, ◌+◌,
  Option, none, some, List, [], ◌∷◌, ◌++◌, map,
}
use mojit_os.Base.Text.{codes, strtol, bytes_eq, tokens}
use mojit_os.InfoReader.{KeyFinder, parse}

-- `atol`, as a 64-bit pattern.
unfoldable pub long_allocator : List ℕ → ℕ
unfolding strtol
long_allocator s = strtol s

-- The loop over the table from index `i` on.
unfoldable pub find_name : List ℕ → List (List ℕ) → ℕ → Option ℕ
find_name token [] i = none
find_name token (name ∷ names) i =
    let later = find_name token names (i + 1) in if bytes_eq name token then some i else later

-- What a token adds to `indexes`, an array of `nb_counters` numbers: `*count` is the length so far. The
-- test of the count stands behind the write.
unfoldable pub add_index : ℕ → List ℕ → Option ℕ → Outcome (List ℕ)
add_index nb_counters indexes none = exits 1
add_index nb_counters indexes (some i) =
    if ltb (length indexes) nb_counters
    then (if ltb nb_counters (length indexes + 1) then exits 1 else returns (indexes ++ (i ∷ [])))
    else faults

-- The loop over the tokens, from the indexes so far on.
unfoldable pub list_names : List (List ℕ) → List (List ℕ) → List ℕ → Outcome (List ℕ)
unfolding find_name add_index
list_names names [] indexes = returns indexes
list_names names (token ∷ rest) indexes = do
  indexes' ← add_index (length names) indexes (find_name token names 0)
  list_names names rest indexes'

-- The written part of `indexes`; `*count` is its length.
unfoldable pub memory_list : List (List ℕ) → List ℕ → Outcome (List ℕ)
unfolding list_names tokens
memory_list names memory_string = list_names names (tokens b',' memory_string) []

-- `set_result_offset` of the generated header: the number at index `i` of the results.
unfoldable pub set_result_offset : ℕ → List ℕ → ℕ → List ℕ
set_result_offset i results value = set results i value

-- `keys[i]` for the name; a missing name is outside of the table.
unfoldable pub keyfinder_of : ℕ → Option (List ℕ) → Outcome (KeyFinder (List ℕ))
unfolding long_allocator set_result_offset
keyfinder_of i none = faults
keyfinder_of i (some name) =
    returns (record {
      key = name;
      delimiter = codes ":";
      copy = long_allocator;
      set = set_result_offset i;
    })

-- The loop from index `i` on.
unfoldable pub build_keyfinder : List (List ℕ) → ℕ → List ℕ → Outcome (List (KeyFinder (List ℕ)))
unfolding keyfinder_of
build_keyfinder names i [] = returns []
build_keyfinder names i (idx ∷ indexes) = do
  key ← keyfinder_of i (get_elem? names idx)
  keys ← build_keyfinder names (i + 1) indexes
  returns (key ∷ keys)

-- The count, and the keys of the state. The file of the state is a parameter of the readings.
unfoldable pub init_memory_counters :
    List (List ℕ) → List ℕ → Outcome (ℕ × List (KeyFinder (List ℕ)))
unfolding memory_list build_keyfinder
init_memory_counters names args = do
  indexes ← memory_list names args
  keys ← build_keyfinder names 0 indexes
  returns (length indexes, keys)

-- The one struct that `parse` fills is the array of the results.
unfoldable pub first_struct : List (List ℕ) → Outcome (List ℕ)
first_struct [] = faults
first_struct (results ∷ storage) = returns results

-- `file` is what the open file holds, `none` where `fopen` gave NULL. The results are `results` with
-- the numbers that were found.
unfoldable pub get_memory_counters :
    Option (List ℕ) → List (KeyFinder (List ℕ)) → List ℕ → Outcome (List ℕ)
unfolding parse first_struct
get_memory_counters none keys results = faults
get_memory_counters (some file) keys results = do
  (code, parser) ←
      parse
        (record { storage = results ∷ []; nb_stored = 0; capacity = 1; keys = keys; file = file })
  first_struct parser.storage

unfoldable pub label_memory_counters : List (KeyFinder (List ℕ)) → List (List ℕ)
label_memory_counters keys = map (λ (k : KeyFinder (List ℕ)). k.key) keys

-- The file of the state is closed.
unfoldable pub clean_memory_counters : ℕ → List ℕ
clean_memory_counters file = file ∷ []

-- The lines that it prints, and its end.
unfoldable pub show_all_memory_counters : List (List ℕ) → List (List ℕ) × Outcome (Unit {0})
show_all_memory_counters names = (map (λ (name : List ℕ). name ++ (b'\n' ∷ [])) names, exits 0)
