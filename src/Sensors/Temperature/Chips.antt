-- ===== src/Sensors/Temperature/Chips.antt =====
-- The sensors that src/temperature.c finds.
use mojit_os.Base.{
  if◌then◌else◌, Bool-cases, length, take, Outcome, returns, ◌>>=◌, ℕ, zero, suc, ◌+◌, ◌<◌, ◌≡◌,
  refl, ap, ◌∙◌, inl, inr, Bool, some, List, [], ◌∷◌, ◌++◌, append-nil, append_assoc, arith,
}
use mojit_os.Base.Text.{codes, cstr}
use mojit_os.Sensors.Reading.{Opened, Readable, Files, AllShow, read_values-AllShow}
use mojit_os.Sensors.Temperature.{
  Temperature, Hwmon, get_string, tidy, temp_path, add_input, after_label, temp_loop,
  add_temperature_sensor, add_chip, after_chip, chip_loop, init_temperature, get_temperature,
}
use mojit_os.Sensors.Temperature.Text.{
  take_short, cstr_line, tidy_line, tidy-Kept, temp_prefix-Kept, line_starts,
}
use mojit_os.Sensors.Temperature.Tree.{
  Temp, Chip, Printed, ShowsTemp, ShowsTemps, ShowsChip, ShowsChips, underscores, is_core,
  temp_prefix, temp_labels, temp_fds, with_chips, with_temps, chips_size, found_temps,
}

with_temps-cons :
    (key : ℕ) (t : Temp) (temps : List Temp) (state : Temperature)
    → with_temps key temps (with_temps key (t ∷ []) state) ≡ with_temps key (t ∷ temps) state
with_temps-cons key t temps state =
    rw
      (
        append_assoc state.label_list ((temp_prefix key ++ underscores t.label) ∷ [])
            (temp_labels key temps),
        append_assoc state.fid_list (t.fd ∷ []) (temp_fds temps),
      )
      refl

label_read :
    (sys : Hwmon) (id_rep i : ℕ) (t : Temp)
    → ShowsTemp sys id_rep i t
    → get_string (sys.read_file (temp_path id_rep i (codes "_label"))) 100
      ≡ some (t.label ++ (b'\n' ∷ []))
unfolding get_string
label_read sys id_rep i t h =
    rw (h.content, get_string)
      (ap some (ap cstr (take_short 100 t.label h.short) ∙ cstr_line t.label h.printed))

temp_loop-ShowsTemps :
    (temps : List Temp) (fuel : ℕ) (sys : Hwmon) (key id_rep i : ℕ) (state : Temperature)
    → length temps < fuel
    → ShowsTemps sys id_rep i temps
    → temp_loop fuel sys (temp_prefix key) id_rep i state ≡ returns (with_temps key temps state)
unfolding temp_loop
temp_loop-ShowsTemps temps zero sys key id_rep i state f h = absurd (omega arith)
temp_loop-ShowsTemps [] (suc fuel) sys key id_rep i state f h =
    rw (h, append-nil state.label_list, append-nil state.fid_list) refl
temp_loop-ShowsTemps (t ∷ temps) (suc fuel) sys key id_rep i state f (ht, h) =
    let prefix : List ℕ = temp_prefix key in
    let loop = λ (s : Temperature). temp_loop fuel sys prefix id_rep (i + 1) s in
    let label : tidy (prefix ++ (t.label ++ (b'\n' ∷ []))) ≡ prefix ++ underscores t.label =
      tidy-Kept prefix (t.label ++ (b'\n' ∷ [])) (temp_prefix-Kept key)
      ∙ ap (λ l. prefix ++ l) (tidy_line t.label ht.printed) in
    ap (after_label sys prefix id_rep i state loop) (label_read sys id_rep i t ht)
    ∙ ap
        (λ (l : List ℕ).
          add_input l (sys.open_file (temp_path id_rep i (codes "_input"))) state >>= loop)
        label
    ∙ ap (λ (o : Opened). add_input (prefix ++ underscores t.label) o state >>= loop) ht.opens
    ∙ temp_loop-ShowsTemps temps fuel sys key id_rep (i + 1) (with_temps key (t ∷ []) state)
        (omega (arith, f)) h
    ∙ ap returns (with_temps-cons key t temps state)

add_chip-ShowsChip :
    (fuel : ℕ) (sys : Hwmon) (i key : ℕ) (state : Temperature) (chip : Chip)
    → length chip.temps < fuel
    → ShowsChip sys i chip
    → add_chip fuel sys i (cstr (take 8 (chip.name ++ (b'\n' ∷ [])))) (key, state)
      ≡ returns (if is_core chip then (key + 1, with_temps key chip.temps state) else (key, state))
unfolding add_chip add_temperature_sensor
add_chip-ShowsChip fuel sys i key state chip f h =
    let named = line_starts (codes "coretemp") chip.name coretemp-Printed h.printed in
    let temps = temp_loop-ShowsTemps chip.temps fuel sys key i 1 state f h.temps_ok in
    ap
      (λ (b : Bool).
        if b then add_temperature_sensor fuel sys i (key, state) else returns (key, state))
      named
    ∙ elim (Bool-cases (is_core chip)) [
      | inl core ↦ rw core (rw temps refl)
      | inr other ↦ rw other refl
    ]
  where
    coretemp-Printed : Printed (codes "coretemp")
    coretemp-Printed = (
      (refl, refl),
      (
        (refl, refl),
        (
          (refl, refl),
          ((refl, refl), ((refl, refl), ((refl, refl), ((refl, refl), ((refl, refl), tt))))),
        ),
      ),
    )

chip_loop-ShowsChips :
    (chips : List Chip) (fuel : ℕ) (sys : Hwmon) (i : ℕ) (keyed : ℕ × Temperature)
    → chips_size chips < fuel
    → ShowsChips sys i chips
    → chip_loop fuel sys i keyed ≡ returns (with_chips chips keyed)
unfolding chip_loop
chip_loop-ShowsChips chips zero sys i keyed f h = absurd (omega arith)
chip_loop-ShowsChips [] (suc fuel) sys i keyed f h =
    let loop = λ (k : ℕ × Temperature). chip_loop fuel sys (i + 1) k in
    ap (λ (r : Readable). after_chip fuel sys i keyed loop (get_string r 8)) h
chip_loop-ShowsChips (chip ∷ chips) (suc fuel) sys i (key, state) f (hc, h) =
    let loop = λ (k : ℕ × Temperature). chip_loop fuel sys (i + 1) k in
    let added = add_chip-ShowsChip fuel sys i key state chip (omega (arith, f)) hc in
    ap (λ (r : Readable). after_chip fuel sys i (key, state) loop (get_string r 8)) hc.content
    ∙ ap (λ (m : Outcome (ℕ × Temperature)). m >>= loop) added
    ∙ chip_loop-ShowsChips chips fuel sys (i + 1) _ (omega (arith, f)) h

pub init_temperature-ShowsChips :
    (fuel : ℕ) (sys : Hwmon) (key : ℕ) (chips : List Chip)
    → chips_size chips < fuel
    → ShowsChips sys 0 chips
    → init_temperature fuel sys key ≡ (
        let found = with_chips chips (key, record { label_list = []; fid_list = [] }) in
        returns (length found.1.label_list, found.0, found.1))
unfolding init_temperature
init_temperature-ShowsChips fuel sys key chips f h =
    rw (chip_loop-ShowsChips chips fuel sys 0 (key, record { label_list = []; fid_list = [] }) f h)
      refl

-- In a tree of hwmon directories, numbered from 0 without a gap, whose name files hold a line, where each
-- chip has temperatures numbered from 1 without a gap with a label of less than 100 bytes and an
-- input file that opens, and with enough fuel for their number, `init_temperature` has for each chip
-- whose name begins with coretemp, in order, one entry for each of its temperatures: the label with
-- the chip's number in front and its spaces replaced, and the descriptor of its input; it returns the
-- number of labels, and counts the chips on. When these inputs show numbers, `get_temperature` then
-- gives just these, whatever its buffer held, and leaves the state as it is.
pub get_temperature-ShowsChips :
    (fuel : ℕ) (sys : Hwmon) (key : ℕ) (chips : List Chip) (files : Files ℕ)
    (numbers buffer : List ℕ)
    → chips_size chips < fuel
    → ShowsChips sys 0 chips
    → AllShow 100 files (found_temps key chips).1.fid_list numbers
    → (init_temperature fuel sys key
        ≡ returns (
          length (found_temps key chips).1.label_list,
          (found_temps key chips).0,
          (found_temps key chips).1,
        ))
      × (after : List ℕ) × (get_temperature files (buffer, (found_temps key chips).1)
          ≡ returns (numbers, after, (found_temps key chips).1))
unfolding get_temperature
get_temperature-ShowsChips fuel sys key chips files numbers buffer f h shows =
    let (after, read) =
      read_values-AllShow 100 files (found_temps key chips).1.fid_list numbers buffer shows in
    (init_temperature-ShowsChips fuel sys key chips f h, after, rw read refl)
