-- ===== src/Sources/Reads.antt =====
-- Readings of files that answer, and the sizes of what the sensors keep.
use mojit_os.Base.{
  if◌then◌else◌, length, length-append, Safely, Safely-bind, ℕ, suc, ◌+◌, ◌≡◌, refl, ap, inl, inr,
  Bool, true, false, List, [], ◌∷◌, ◌++◌, arith,
}
use mojit_os.Sensors.Reading.{Files, read_value, read_values, read_value-Shows}
use mojit_os.Sensors.Temperature.{Temperature}
use mojit_os.Sensors.Temperature.Tree.{Temp, Chip, is_core, temp_labels, temp_fds, with_chips}
use mojit_os.Sources.{Answers}

read_value-Answers :
    {D : Type 0} (count : ℕ) (files : Files D) (fd : D) (buffer : List ℕ)
    → Answers count files fd
    → Safely (λ (r : ℕ × List ℕ). Unit) (read_value count buffer (files fd))
unfolding read_value
read_value-Answers count files fd buffer (inl absent) = rw absent tt
read_value-Answers count files fd buffer (inr (n, s)) =
    let (after, e) = read_value-Shows count files fd n buffer s in rw e tt

-- A loop of readings of files that answer gives a number for each, or ends the process.
pub read_values-Answers :
    {D : Type 0} (count : ℕ) (files : Files D) (sources : List D) (buffer : List ℕ)
    → ((fd : D) → Answers count files fd)
    → Safely
        (λ (r : List ℕ × List ℕ). length r.0 ≡ length sources)
        (read_values count files sources buffer)
unfolding read_values
read_values-Answers count files [] buffer h = refl
read_values-Answers count files (fd ∷ sources) buffer h =
    Safely-bind _ (λ (r : ℕ × List ℕ). Unit) (read_value count buffer (files fd)) _
      (read_value-Answers count files fd buffer (h fd))
      (λ a _.
        Safely-bind _ _ (read_values count files sources a.1) _
          (read_values-Answers count files sources a.1 h) (λ b hb. ap suc hb))

-- A label for each descriptor.
abbrev pub Even : Temperature → Type 0
Even t = length t.label_list ≡ length t.fid_list

temps_even :
    (key : ℕ) (temps : List Temp) → length (temp_labels key temps) ≡ length (temp_fds temps)
temps_even key [] = refl
temps_even key (t ∷ temps) = ap suc (temps_even key temps)

-- The state with the temperatures of a chip, if it is one of the processor's.
abbrev with_chip : Bool → ℕ → List Temp → Temperature → ℕ × Temperature
with_chip core key temps state =
    if core
    then (
      key + 1,
      record {
        label_list = state.label_list ++ temp_labels key temps;
        fid_list = state.fid_list ++ temp_fds temps;
      },
    )
    else (key, state)

with_chip-Even :
    (core : Bool) (key : ℕ) (temps : List Temp) (state : Temperature)
    → Even state
    → Even (with_chip core key temps state).1
with_chip-Even false key temps state h = h
with_chip-Even true key temps state h = omega (
  arith,
  h,
  temps_even key temps,
  length-append state.label_list (temp_labels key temps),
  length-append state.fid_list (temp_fds temps),
)

pub with_chips-Even :
    (chips : List Chip) (keyed : ℕ × Temperature) → Even keyed.1 → Even (with_chips chips keyed).1
with_chips-Even [] keyed h = h
with_chips-Even (chip ∷ chips) (key, state) h =
    with_chips-Even chips (with_chip (is_core chip) key chip.temps state)
      (with_chip-Even (is_core chip) key chip.temps state h)
