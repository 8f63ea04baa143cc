-- ===== src/Sensors/MemoryCounters/Tests.antt =====
-- Runs of src/memory_counters.c, and its theorems at concrete inputs.
use mojit_os.Base.{
  length, returns, faults, ◌>>=◌, Ensures, ℕ, ◌≡◌, refl, some, List, [], ◌∷◌, ◌++◌, arith,
}
use mojit_os.Base.Text.{codes, upto, starts, bytes_eq, tokens}
use mojit_os.InfoReader.{
  replace_first, buffer_getline, KeyFinder, match, set_value, parse_line, parse_round,
}
use mojit_os.Sensors.MemoryCounters.{
  find_name, memory_list, init_memory_counters, get_memory_counters, label_memory_counters,
}
use mojit_os.Sensors.MemoryCounters.Selection.{init_memory_counters-labels, memory_list_overrun}

abbrev meminfo_names : List (List ℕ)
meminfo_names = codes "Active" ∷ codes "Active(anon)" ∷ codes "Swap" ∷ []

abbrev meminfo : List ℕ
meminfo =
    codes "Active: 10 kB"
    ++ (10 ∷ (codes "Active(anon): 4 kB" ++ (10 ∷ (codes "Swap: 7 kB" ++ (10 ∷ [])))))

-- `Active` is found again at the start of `Active(anon)`, whose number stays, and `Swap` is not
-- reached.
test_prefix :
    (init_memory_counters meminfo_names (codes "Active,Swap") >>= λ r.
    get_memory_counters (some meminfo) r.1 (0 ∷ 0 ∷ []))
    ≡ returns (4 ∷ 0 ∷ [])
unfolding init_memory_counters get_memory_counters tokens bytes_eq starts replace_first upto
    buffer_getline parse_round parse_line match set_value
test_prefix = refl

init_memory_counters-labels_example :
    Ensures
      (λ (r : ℕ × List (KeyFinder (List ℕ))).
        (label_memory_counters r.1 ≡ tokens b',' (codes "Swap,Active"))
        × (r.0 ≡ length (tokens b',' (codes "Swap,Active"))))
      (init_memory_counters meminfo_names (codes "Swap,Active"))
init_memory_counters-labels_example =
    init_memory_counters-labels meminfo_names (codes "Swap,Active")

memory_list_overrun_example : memory_list meminfo_names (codes "Swap,Swap,Swap,Swap") ≡ faults
unfolding tokens find_name bytes_eq
memory_list_overrun_example =
    memory_list_overrun meminfo_names (codes "Swap,Swap,Swap,Swap")
      ((2, refl), ((2, refl), ((2, refl), ((2, refl), tt)))) (omega arith)
