-- ===== src/Sensors/Disk/Rows.antt =====
-- What src/disk.c reads from the files of /sys/block.
use mojit_os.Base.{
  length, take, drop, All, take_whole, All-append, Outcome, returns, ◌>>=◌, ℕ, ◌≤◌, ◌≡◌, refl, sym,
  ap, ◌∙◌, Option, some, List, [], ◌∷◌, ◌++◌, map, append_assoc,
}
use mojit_os.Base.Text.{decimal}
use mojit_os.Sensors.Deltas.{IsU64, differences}
use mojit_os.Sensors.Disk.{disk_values_size, Disk, read_ints, read_disk, _get_disk, get_disk}
use mojit_os.Sensors.Reading.{Files, pread_into}
use mojit_os.Util.{NoDigit, read_int-decimal}

-- A number as it stands in a stat file: bytes that are no digits, the number, and a byte behind it.
pub record Field : Type 0 where
  pub pad : List ℕ
  pub number : ℕ
  pub after : ℕ

pub record IsField (f : Field) : Type 0 where
  pub pad_ok : All NoDigit f.pad
  pub small : IsU64 f.number
  pub after_ok : NoDigit f.after

-- The fields, in front of other bytes.
abbrev pub stat_row : List Field → List ℕ → List ℕ
stat_row [] tail = tail
stat_row (f ∷ fields) tail = f.pad ++ (decimal f.number ++ (f.after ∷ stat_row fields tail))

abbrev pub numbers_of : List Field → List ℕ
numbers_of = map (λ (f : Field). f.number)

stat_row-append :
    (fields : List Field) (s t : List ℕ) → stat_row fields s ++ t ≡ stat_row fields (s ++ t)
stat_row-append [] s t = refl
stat_row-append (f ∷ fields) s t =
    rw
      (
        append_assoc f.pad (decimal f.number ++ (f.after ∷ stat_row fields s)) t,
        append_assoc (decimal f.number) (f.after ∷ stat_row fields s) t,
        stat_row-append fields s t,
      )
      refl

-- Behind other bytes that are no digits.
read_ints-stat_row :
    (fields : List Field) (lead tail : List ℕ)
    → All IsField fields
    → All NoDigit lead
    → read_ints (length fields) (lead ++ stat_row fields tail) ≡ returns (numbers_of fields)
unfolding read_ints
read_ints-stat_row [] lead tail h hl = refl
read_ints-stat_row (f ∷ fields) lead tail (hf, h) hl =
    let pads = All-append NoDigit lead f.pad hl hf.pad_ok in
    let first =
      read_int-decimal (lead ++ f.pad) f.number f.after (stat_row fields tail) pads hf.small
        hf.after_ok in
    let rest = read_ints-stat_row fields (f.after ∷ []) tail h (hf.after_ok, tt) in
    rw
      (
        sym (append_assoc lead f.pad (decimal f.number ++ (f.after ∷ stat_row fields tail))),
        first,
        rest,
      )
      refl

-- The descriptor's file begins with the fields of a device, and they are within the first 1023 bytes.
pub record ShowsRow (files : Files (Option ℕ)) (fd : Option ℕ) (fields : List Field) : Type 0 where
  pub more : List ℕ
  pub content : files fd ≡ some (stat_row fields more)
  pub all_fields : All IsField fields
  pub count : length fields ≡ disk_values_size
  pub reached : length (stat_row fields []) ≤ 1023

read_disk-ShowsRow :
    (files : Files (Option ℕ)) (fd : Option ℕ) (fields : List Field) (buffer : List ℕ)
    → ShowsRow files fd fields
    → (next : List ℕ) × (read_disk buffer (files fd) ≡ returns (numbers_of fields, next))
unfolding read_disk
read_disk-ShowsRow files fd fields buffer s =
    let content : List ℕ = stat_row fields s.more in
    let (rest, cut) = take_whole (stat_row fields []) s.more 1023 s.reached in
    let tail : List ℕ = drop (length (take 1023 content)) buffer in
    let whole = stat_row-append fields [] s.more in
    let seen : pread_into buffer 1023 content ≡ stat_row fields (rest ++ tail) =
      ap (λ (l : List ℕ). l ++ tail) (ap (take 1023) (sym whole) ∙ cut)
      ∙ append_assoc (stat_row fields []) rest tail
      ∙ stat_row-append fields [] (rest ++ tail) in
    let next : List ℕ = pread_into buffer 1023 content in
    let read : read_ints disk_values_size next ≡ returns (numbers_of fields) =
      ap (read_ints disk_values_size) seen
      ∙ ap (λ (n : ℕ). read_ints n (stat_row fields (rest ++ tail))) (sym s.count)
      ∙ read_ints-stat_row fields [] (rest ++ tail) s.all_fields tt in
    (
      next,
      rw (s.content, read_disk)
          (ap (λ (m : Outcome (List ℕ)). m >>= λ values. returns (values, next)) read),
    )

abbrev pub AllRows : Files (Option ℕ) → List (Option ℕ) → List (List Field) → Type 0
AllRows files [] [] = Unit
AllRows files [] (r ∷ rows) = ⊥
AllRows files (fd ∷ sources) [] = ⊥
AllRows files (fd ∷ sources) (r ∷ rows) = ShowsRow files fd r × AllRows files sources rows

abbrev pub all_numbers : List (List Field) → List ℕ
all_numbers [] = []
all_numbers (r ∷ rows) = numbers_of r ++ all_numbers rows

_get_disk-AllRows :
    (files : Files (Option ℕ)) (sources : List (Option ℕ)) (rows : List (List Field))
    (buffer : List ℕ)
    → AllRows files sources rows
    → _get_disk files buffer sources ≡ returns (all_numbers rows)
unfolding _get_disk
_get_disk-AllRows files [] [] buffer h = refl
_get_disk-AllRows files [] (r ∷ rows) buffer h = absurd h
_get_disk-AllRows files (fd ∷ sources) [] buffer h = absurd h
_get_disk-AllRows files (fd ∷ sources) (r ∷ rows) buffer (s, h) =
    let (next, run) = read_disk-ShowsRow files fd r buffer s in
    rw (run, _get_disk-AllRows files sources rows next h) refl

-- When the stat file of each device shows its fifteen numbers, between bytes that are no digits,
-- `get_disk` gives the differences of just these to the last ones, device after device, whatever the
-- stack held, and keeps the new ones.
pub get_disk-AllRows :
    (files : Files (Option ℕ)) (buffer : List ℕ) (s : Disk) (rows : List (List Field))
    → AllRows files s.sources rows
    → get_disk files buffer s
      ≡ returns (
        differences (all_numbers rows) s.tmp_values,
        record s { values = all_numbers rows; tmp_values = all_numbers rows },
      )
unfolding get_disk
get_disk-AllRows files buffer s rows h = rw (_get_disk-AllRows files s.sources rows buffer h) refl
