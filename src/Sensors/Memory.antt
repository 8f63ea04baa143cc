-- ===== src/Sensors/Memory.antt =====
-- src/memory.c: the numbers of sysinfo.
mod Tests
use mojit_os.Base.{Outcome, returns, exits, ℕ, Option, none, some, List, [], ◌∷◌}
use mojit_os.Base.Text.{codes}

-- The fields of `struct sysinfo` that are reported.
pub record SysInfo : Type 0 where
  pub totalram : ℕ
  pub freeram : ℕ
  pub sharedram : ℕ
  pub bufferram : ℕ
  pub totalswap : ℕ
  pub freeswap : ℕ
  pub procs : ℕ
  pub totalhigh : ℕ
  pub freehigh : ℕ
  pub mem_unit : ℕ

abbrev pub memory_count : ℕ
memory_count = 10

abbrev pub memory_labels : List (List ℕ)
memory_labels =
    codes "totalram"
    ∷ codes "freeram"
    ∷ codes "sharedram"
    ∷ codes "bufferram"
    ∷ codes "totalswap"
    ∷ codes "freeswap"
    ∷ codes "procs"
    ∷ codes "totalhigh"
    ∷ codes "freehigh"
    ∷ codes "mem_unit"
    ∷ []

-- `sysinfo` answers `none` for an error.
unfoldable pub init_memory : Option SysInfo → ℕ
init_memory none = 0
init_memory (some info) = memory_count

-- `results` from index 0 on; the return value is `memory_count`.
unfoldable pub get_memory : Option SysInfo → Outcome (List ℕ)
get_memory none = exits 99
get_memory (some info) = returns (
    info.totalram ∷ info.freeram ∷ info.sharedram ∷ info.bufferram ∷ info.totalswap ∷ info.freeswap
    ∷ info.procs ∷ info.totalhigh ∷ info.freehigh ∷ info.mem_unit ∷ [])

unfoldable pub label_memory : List (List ℕ)
label_memory = memory_labels
