-- ===== src/Sensors/Memory/Tests.antt =====
-- Runs of src/memory.c, with the counts of tests/memory.c.
use mojit_os.Base.{length, returns, ◌≡◌, refl, some, [], ◌∷◌}
use mojit_os.Sensors.Memory.{SysInfo, init_memory, get_memory, label_memory}

abbrev info : SysInfo
info = record {
  totalram = 1;
  freeram = 2;
  sharedram = 3;
  bufferram = 4;
  totalswap = 5;
  freeswap = 6;
  procs = 7;
  totalhigh = 8;
  freehigh = 9;
  mem_unit = 10;
}

test_get_memory :
    (init_memory (some info) ≡ 10)
    × (get_memory (some info) ≡ returns (1 ∷ 2 ∷ 3 ∷ 4 ∷ 5 ∷ 6 ∷ 7 ∷ 8 ∷ 9 ∷ 10 ∷ []))
    × (length label_memory ≡ 10)
unfolding init_memory get_memory label_memory
test_get_memory = (refl, refl, refl)
