-- ===== src/Sensors/MemoryCounters/Update.antt =====
-- A reading of src/memory_counters.c.
use mojit_os.Base.{length, returns, ℕ, ◌≡◌, refl, some, List, [], ◌∷◌, arith}
use mojit_os.InfoReader.{KeyFinder}
use mojit_os.InfoReader.Safety.{parse_lem}
use mojit_os.Sensors.MemoryCounters.{first_struct, get_memory_counters}

first_struct-returns :
    (storage : List (List ℕ))
    → length storage ≡ 1
    → (results : List ℕ) × (first_struct storage ≡ returns results)
unfolding first_struct
first_struct-returns [] h = absurd (omega arith)
first_struct-returns (results ∷ storage) h = (results, refl)

-- Whatever the file holds, `get_memory_counters` ends and stays inside the one struct of its parser.
pub get_memory_counters-returns :
    (file : List ℕ) (keys : List (KeyFinder (List ℕ))) (results : List ℕ)
    → (r : List ℕ) × (get_memory_counters (some file) keys results ≡ returns r)
unfolding get_memory_counters
get_memory_counters-returns file keys results =
    let (code, q, run, stopped) =
      parse_lem
        (record { storage = results ∷ []; nb_stored = 0; capacity = 1; keys = keys; file = file })
        (record { room = omega arith; fits = omega arith }) in
    let (r, e) = first_struct-returns q.storage stopped.length_kept in (r, rw run e)
