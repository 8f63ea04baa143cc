-- ===== src/Sensors/Rapl/Tests.antt =====
-- Runs of src/rapl.c, and its theorems at concrete inputs.
use mojit_os.Base.{
  ◌==◌, if◌then◌else◌, length, replicate, returns, ◌>>=◌, ℕ, ◌≡◌, refl, some, List, [], ◌∷◌, ◌++◌,
  arith,
}
use mojit_os.Base.Text.{codes, bytes_eq, decimal, decimal_int}
use mojit_os.Sensors.Rapl.{
  IntelRapl, _get_rapl, Powercap, zone_path, subzone_path, no_rapl, init_rapl, get_rapl,
}
use mojit_os.Sensors.Rapl.Steps.{get_rapl_steps}
use mojit_os.Sensors.Rapl.Zones.{
  Zone, ShowsZone, ShowsZones, sources_from, with_sources, init_rapl-ShowsZones,
}
use mojit_os.Sensors.Reading.{opened, Readable, missing, holds, Files, AllShow}

abbrev package_zone : Zone
package_zone = record { name = codes "package-0"; range = 262143; energy = 5 }

abbrev dram_zone : Zone
dram_zone = record { name = codes "dram"; range = 65535; energy = 6 }

abbrev line : List ℕ → Readable
line s = holds (s ++ (10 ∷ []))

-- One zone with one subzone.
abbrev tree : Powercap
tree = record {
  read_file = λ path.
      if bytes_eq path (zone_path 0 ++ codes "name")
      then line (codes "package-0")
      else if bytes_eq path (zone_path 0 ++ codes "max_energy_range_uj")
      then line (codes "262143")
      else if bytes_eq path (subzone_path 0 0 ++ codes "name")
      then line (codes "dram")
      else if bytes_eq path (subzone_path 0 0 ++ codes "max_energy_range_uj")
      then line (codes "65535")
      else missing;
  open_file =
      λ path. if bytes_eq path (zone_path 0 ++ codes "energy_uj") then opened 5 else opened 6;
}

abbrev tree_zones : List (Zone × List Zone)
tree_zones = (package_zone, dram_zone ∷ []) ∷ []

abbrev counters : Files ℕ
counters fd = some (codes "1000" ++ (10 ∷ []))

package_zone-ShowsZone : ShowsZone tree (zone_path 0) package_zone
unfolding bytes_eq decimal_int decimal
package_zone-ShowsZone = record {
  name_file = refl;
  range_file = refl;
  energy_file = refl;
  name_bytes = (refl, (refl, (refl, (refl, (refl, (refl, (refl, (refl, (refl, tt)))))))));
  name_short = omega arith;
  range_short = omega arith;
  range_small = omega arith;
}

dram_zone-ShowsZone : ShowsZone tree (subzone_path 0 0) dram_zone
unfolding bytes_eq decimal_int decimal
dram_zone-ShowsZone = record {
  name_file = refl;
  range_file = refl;
  energy_file = refl;
  name_bytes = (refl, (refl, (refl, (refl, tt))));
  name_short = omega arith;
  range_short = omega arith;
  range_small = omega arith;
}

tree-ShowsZones : ShowsZones tree 0 tree_zones
unfolding bytes_eq decimal_int decimal
tree-ShowsZones = (package_zone-ShowsZone, (dram_zone-ShowsZone, omega arith, refl), refl)

init_rapl-ShowsZones_example : init_rapl 3 tree counters (replicate 512 0) ≡ (
    _get_rapl counters (replicate 512 0) (with_sources no_rapl (sources_from 0 tree_zones)).fids
    >>= λ r. returns (
      length (with_sources no_rapl (sources_from 0 tree_zones)).names,
      r.1,
      record (with_sources no_rapl (sources_from 0 tree_zones)) {
        values = r.0;
        tmp_values = replicate (length (with_sources no_rapl (sources_from 0 tree_zones)).names) 0;
      },
    ))
init_rapl-ShowsZones_example =
    init_rapl-ShowsZones 3 tree counters (replicate 512 0) tree_zones tree-ShowsZones (omega arith)
      (omega arith)

abbrev two_sources : IntelRapl
two_sources = record {
  names = codes "package-0" ∷ codes "dram0" ∷ [];
  fids = 5 ∷ 6 ∷ [];
  modulo = 262143 ∷ 65535 ∷ [];
  values = 262000 ∷ 60000 ∷ [];
  tmp_values = 0 ∷ 0 ∷ [];
}

abbrev later : Files ℕ
later fd = some ((if fd == 5 then codes "100" else codes "60100") ++ (10 ∷ []))

later-AllShow : AllShow 100 later (5 ∷ 6 ∷ []) (100 ∷ 60100 ∷ [])
unfolding decimal
later-AllShow = (
  record {
    end = 10;
    more = [];
    content = refl;
    ends = refl;
    fits = omega arith;
    reached = omega arith;
  },
  (
    record {
      end = 10;
      more = [];
      content = refl;
      ends = refl;
      fits = omega arith;
      reached = omega arith;
    },
    tt,
  ),
)

get_rapl_steps_example :
    (next : List ℕ) × (get_rapl later (replicate 512 0, two_sources)
      ≡ returns (
        244 ∷ 100 ∷ [],
        next,
        record two_sources { values = 100 ∷ 60100 ∷ []; tmp_values = 100 ∷ 60100 ∷ [] },
      ))
get_rapl_steps_example =
    get_rapl_steps later (replicate 512 0) two_sources (244 ∷ 100 ∷ []) (omega arith) later-AllShow
