-- ===== src/Sensors/Rapl/Zones.antt =====
-- Which energies src/rapl.c finds in the tree of the powercap files.
use mojit_os.Base.{
  ltb, ◌==◌, Bool-cases, length, take, replicate, All, length-append, is_empty, returns, ◌>>=◌, ℕ,
  zero, suc, ◌+◌, ◌-◌, ◌/◌, ◌%◌, ◌^◌, ◌≤◌, ◌<◌, ◌≡◌, refl, ap, inl, inr, true, false, Option, none,
  some, List, [], ◌∷◌, ◌++◌, map, arith,
}
use mojit_os.Base.Text.{u64_mod, codes, upto, decimal_onto, decimal, decimal_int}
use mojit_os.Sensors.Rapl.{
  max_header, but_last, get_rapl_string, append, IntelRapl, add_rapl_source, _get_rapl, Powercap,
  parse_modulo, add_named, add_rapl_source_from_str, zone_path, subzone_path, subzone_loop,
  zone_loop, no_rapl, init_rapl,
}
use mojit_os.Sensors.Reading.{opened, missing, holds, Files, strtoull-decimal}
use mojit_os.Sensors.Routes.{enough}

-- A zone's name, the range of its counter and the descriptor of its energy.
pub record Zone : Type 0 where
  pub name : List ℕ
  pub range : ℕ
  pub energy : ℕ

abbrev pub IsNameByte : ℕ → Type 0
IsNameByte c = (c == 0) ≡ false

pub record ShowsZone (sys : Powercap) (base : List ℕ) (z : Zone) : Type 0 where
  pub name_file : sys.read_file (base ++ codes "name") ≡ holds (z.name ++ (10 ∷ []))
  pub range_file :
      sys.read_file (base ++ codes "max_energy_range_uj") ≡ holds (decimal z.range ++ (10 ∷ []))
  pub energy_file : sys.open_file (base ++ codes "energy_uj") ≡ opened z.energy
  pub name_bytes : All IsNameByte z.name
  pub name_short : length z.name < max_header
  pub range_short : length (decimal z.range) < max_header
  pub range_small : z.range < u64_mod

-- The subzones of zone `i` from `j` on, and the first index with no file. The name of a subzone leaves
-- room for the zone's number in the buffer.
abbrev pub ShowsSubzones : Powercap → ℕ → ℕ → List Zone → Type 0
ShowsSubzones sys i j [] = sys.read_file (subzone_path i j ++ codes "name") ≡ missing
ShowsSubzones sys i j (z ∷ zones) =
    ShowsZone sys (subzone_path i j) z
    × (length z.name + length (decimal i) < max_header)
    × ShowsSubzones sys i (j + 1) zones

-- The zones from `i` on with their subzones.
abbrev pub ShowsZones : Powercap → ℕ → List (Zone × List Zone) → Type 0
ShowsZones sys i [] = sys.read_file (zone_path i ++ codes "name") ≡ missing
ShowsZones sys i ((z, subzones) ∷ zones) =
    ShowsZone sys (zone_path i) z × ShowsSubzones sys i 0 subzones × ShowsZones sys (i + 1) zones

-- A subzone is named with the index of its zone behind its own name.
abbrev pub numbered : ℕ → Zone → Zone
numbered i z = record z { name = z.name ++ decimal i }

-- The sources in order: each zone, and then its subzones.
abbrev pub sources_from : ℕ → List (Zone × List Zone) → List Zone
sources_from i [] = []
sources_from i ((z, subzones) ∷ zones) =
    z ∷ (map (numbered i) subzones ++ sources_from (i + 1) zones)

-- A state with more sources.
abbrev pub with_sources : IntelRapl → List Zone → IntelRapl
with_sources rapl [] = rapl
with_sources rapl (z ∷ zones) =
    with_sources
      (record rapl {
        names = rapl.names ++ (z.name ∷ []);
        fids = rapl.fids ++ (z.energy ∷ []);
        modulo = rapl.modulo ++ (z.range ∷ []);
      })
      zones

with_sources-append :
    (rapl : IntelRapl) (zones more : List Zone)
    → with_sources rapl (zones ++ more) ≡ with_sources (with_sources rapl zones) more
with_sources-append rapl [] more = refl
with_sources-append rapl (z ∷ zones) more = with_sources-append _ zones more

but_last-line : (s : List ℕ) (c : ℕ) → but_last (s ++ (c ∷ [])) ≡ s
but_last-line [] c = refl
but_last-line (a ∷ []) c = refl
but_last-line (a ∷ (b ∷ s)) c = ap (λ l. a ∷ l) (but_last-line (b ∷ s) c)

upto-none : (s : List ℕ) → All IsNameByte s → upto 0 s ≡ s
unfolding upto
upto-none [] h = refl
upto-none (c ∷ s) (h, hs) = rw h (ap (λ l. c ∷ l) (upto-none s hs))

take_all : (n : ℕ) (s : List ℕ) → length s ≤ n → take n s ≡ s
take_all zero [] h = refl
take_all zero (c ∷ s) h = absurd (omega arith)
take_all (suc n) [] h = refl
take_all (suc n) (c ∷ s) h = ap (λ l. c ∷ l) (take_all n s (omega arith))

-- A file of one line gives the line.
get_rapl_string-line :
    (s : List ℕ)
    → All IsNameByte s
    → length s < max_header
    → get_rapl_string (holds (s ++ (10 ∷ []))) ≡ returns (some s)
unfolding get_rapl_string
get_rapl_string-line s h short =
    let fits : length (s ++ (10 ∷ [])) ≤ max_header = omega (arith, length-append s (10 ∷ [])) in
    rw (nonempty s, take_all max_header (s ++ (10 ∷ [])) fits, but_last-line s 10, upto-none s h)
      refl
  where
    nonempty : (s : List ℕ) → is_empty (s ++ (10 ∷ [])) ≡ false
    nonempty [] = refl
    nonempty (c ∷ s) = refl

decimal_onto-IsNameByte :
    (f n : ℕ) (tail : List ℕ) → All IsNameByte tail → All IsNameByte (decimal_onto f n tail)
unfolding decimal_onto
decimal_onto-IsNameByte zero n tail h = h
decimal_onto-IsNameByte (suc f) n tail h = elim (Bool-cases (ltb n 10)) [
  | inl e ↦ rw e (ground arith, h)
  | inr e ↦ rw e (decimal_onto-IsNameByte f (n / 10) ((b'0' + n % 10) ∷ tail) (ground arith, h))
]

decimal-IsNameByte : (n : ℕ) → All IsNameByte (decimal n)
unfolding decimal
decimal-IsNameByte n = decimal_onto-IsNameByte (n + 1) n [] tt

append-fits :
    (name : List ℕ) (i : ℕ)
    → i < 2 ^ 31
    → length name + length (decimal i) < max_header
    → append name i max_header ≡ name ++ decimal i
unfolding append decimal_int
append-fits name i small fits =
    let low : ltb i (2 ^ 31) ≡ true = ground (arith, small) in
    rw low (
      ap (λ l. name ++ l)
        (take_all (max_header - length name - 1) (decimal i) (omega (arith, fits))))

-- The number behind a name fits.
abbrev HasRoomFor : Zone → Option ℕ → Type 0
HasRoomFor z none = Unit
HasRoomFor z (some i) = (i < 2 ^ 31) × (length z.name + length (decimal i) < max_header)

-- A shown zone is added under its name, and with its index if it has a level.
add_rapl_source_from_str-ShowsZone :
    (sys : Powercap) (rapl : IntelRapl) (base : List ℕ) (level : Option ℕ) (z : Zone)
    → ShowsZone sys base z
    → HasRoomFor z level
    → add_rapl_source_from_str sys rapl base level
      ≡ returns (1, with_sources rapl ((elim level [ none ↦ z | some i ↦ numbered i z ]) ∷ []))
unfolding add_rapl_source_from_str
add_rapl_source_from_str-ShowsZone sys rapl base level z s room =
    rw (s.name_file, get_rapl_string-line z.name s.name_bytes s.name_short)
      (named sys rapl base level z s room)
  where
    named :
        (sys : Powercap) (rapl : IntelRapl) (base : List ℕ) (level : Option ℕ) (z : Zone)
        → ShowsZone sys base z
        → HasRoomFor z level
        → add_named sys rapl base level (some z.name)
          ≡ returns (1, with_sources rapl ((elim level [ none ↦ z | some i ↦ numbered i z ]) ∷ []))
    named sys rapl base none z s room =
        unfold add_named parse_modulo add_rapl_source in
        rw
          (
            s.range_file,
            get_rapl_string-line (decimal z.range) (decimal-IsNameByte z.range) s.range_short,
            s.energy_file,
            ap (λ (r : ℕ × List ℕ). r.0) (strtoull-decimal z.range s.range_small),
          )
          refl
    named sys rapl base (some i) z s (low, fits) =
        unfold add_named parse_modulo add_rapl_source in
        rw
          (
            s.range_file,
            get_rapl_string-line (decimal z.range) (decimal-IsNameByte z.range) s.range_short,
            s.energy_file,
            ap (λ (r : ℕ × List ℕ). r.0) (strtoull-decimal z.range s.range_small),
            append-fits z.name i low fits,
          )
          refl

add_rapl_source_from_str-missing :
    (sys : Powercap) (rapl : IntelRapl) (base : List ℕ) (level : Option ℕ)
    → sys.read_file (base ++ codes "name") ≡ missing
    → add_rapl_source_from_str sys rapl base level ≡ returns (0, rapl)
unfolding add_rapl_source_from_str get_rapl_string add_named
add_rapl_source_from_str-missing sys rapl base level h = rw (h, get_rapl_string) refl

subzone_loop-ShowsSubzones :
    (fuel : ℕ) (sys : Powercap) (i j : ℕ) (rapl : IntelRapl) (zones : List Zone)
    → ShowsSubzones sys i j zones
    → length zones < fuel
    → i < 2 ^ 31
    → j + length zones < 2 ^ 32
    → subzone_loop fuel sys i j rapl ≡ returns (with_sources rapl (map (numbered i) zones))
unfolding subzone_loop
subzone_loop-ShowsSubzones zero sys i j rapl zones h enough low small = absurd (omega arith)
subzone_loop-ShowsSubzones (suc fuel) sys i j rapl [] h enough low small =
    rw (add_rapl_source_from_str-missing sys rapl (subzone_path i j) (some i) h) refl
subzone_loop-ShowsSubzones (suc fuel) sys i j rapl (z ∷ zones) (s, fits, h) enough low small =
    let next : (j + 1) % 2 ^ 32 ≡ j + 1 = omega arith in
    rw (add_rapl_source_from_str-ShowsZone sys rapl (subzone_path i j) (some i) z s (low, fits)) (
      rw next
        (subzone_loop-ShowsSubzones fuel sys i (j + 1) _ zones h (omega arith) low (omega arith)))

-- More fuel than there are zones, and than any zone has subzones.
abbrev pub Enough : ℕ → List (Zone × List Zone) → Type 0
Enough fuel [] = 0 < fuel
Enough zero (z ∷ zones) = ⊥
Enough (suc fuel) ((z, subzones) ∷ zones) = (length subzones < fuel) × Enough fuel zones

zone_loop-ShowsZones :
    (fuel : ℕ) (sys : Powercap) (i : ℕ) (rapl : IntelRapl) (zones : List (Zone × List Zone))
    → ShowsZones sys i zones
    → Enough fuel zones
    → i + fuel < 2 ^ 31
    → zone_loop fuel sys i rapl ≡ returns (with_sources rapl (sources_from i zones))
unfolding zone_loop
zone_loop-ShowsZones zero sys i rapl [] h enough small = absurd (omega arith)
zone_loop-ShowsZones zero sys i rapl (z ∷ zones) h enough small = absurd enough
zone_loop-ShowsZones (suc fuel) sys i rapl [] h enough small =
    rw (add_rapl_source_from_str-missing sys rapl (zone_path i) none h) refl
zone_loop-ShowsZones (suc fuel) sys i rapl ((z, subzones) ∷ zones) (s, hs, h) (few, enough) small =
    let next : (i + 1) % 2 ^ 32 ≡ i + 1 = omega arith in
    let rapl' = with_sources rapl (z ∷ []) in
    rw (add_rapl_source_from_str-ShowsZone sys rapl (zone_path i) none z s tt) (
      rw (subzone_loop-ShowsSubzones fuel sys i 0 rapl' subzones hs few (omega arith) (omega arith))
        (rw
          (next, with_sources-append rapl' (map (numbered i) subzones) (sources_from (i + 1) zones))
          (zone_loop-ShowsZones fuel sys (i + 1) _ zones h enough (omega arith))))

-- On a tree of zones and subzones whose files hold a name, a range and an energy, numbered without
-- gaps, where each subzone's name leaves room for its zone's number in 127 bytes, and with enough fuel,
-- below 2^31, `init_rapl` finds exactly these sources, each zone in front of its subzones, which carry
-- the zone's number in decimal behind their names; it returns their number, and the values are a first
-- reading.
pub init_rapl-ShowsZones :
    (fuel : ℕ) (sys : Powercap) (files : Files ℕ) (buffer : List ℕ)
    (zones : List (Zone × List Zone))
    → ShowsZones sys 0 zones
    → Enough fuel zones
    → fuel < 2 ^ 31
    → let rapl = with_sources no_rapl (sources_from 0 zones) in
      init_rapl fuel sys files buffer ≡ (
        _get_rapl files buffer rapl.fids >>= λ r. returns (
          length rapl.names,
          r.1,
          record rapl { values = r.0; tmp_values = replicate (length rapl.names) 0 },
        ))
unfolding init_rapl
init_rapl-ShowsZones fuel sys files buffer zones h enough small =
    rw (zone_loop-ShowsZones fuel sys 0 no_rapl zones h enough (omega arith)) refl
