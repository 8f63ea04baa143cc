-- ===== src/Sensors/Reading.antt =====
-- Numbers read with `pread` and `strtoull` from files of /proc and /sys: the loops of
-- `_get_network`, `_get_infiniband`, `_get_rapl` and `get_temperature` differ in their buffers only.
use mojit_os.Base.{
  ltb, if◌then◌else◌, Bool-cases, length, take, drop, is_empty, take_past, Outcome, returns, exits,
  faults, ◌>>=◌, ℕ, zero, suc, ◌+◌, ◌/◌, ◌%◌, ◌^◌, ◌<◌, ◌≡◌, refl, sym, ap, ◌∙◌, inl, inr, true,
  false, ◌||◌, Option, none, some, List, [], ◌∷◌, ◌++◌, append-nil, append_assoc, arith,
}
use mojit_os.Base.Text.{
  u64_mod, is_digit, span_digits, skip_spaces, sign, strtoull, atoi, decimal_onto, decimal,
  decimal_onto-append, span_digits-decimal,
}
use mathlib.Core.Path.{◌≡⟨◌⟩◌, ◌∎}

-- What `open` answers: a descriptor, or -1 with an `errno`.
pub data Opened : Type 0 where
  opened : ℕ → Opened
  refused : ℕ → Opened

-- What `open` and one `read` make of a path: no descriptor, an error, or the bytes of the file.
pub data Readable : Type 0 where
  missing : Readable
  unreadable : Readable
  holds : List ℕ → Readable

-- What `pread(fd, …, 0)` finds, for each descriptor; `none` is an error. `D` is the type of
-- descriptors: numbers, or `Option ℕ` where the source keeps the -1 of a failed `open`.
abbrev pub Files : Type 0 → Type 0
Files D = D → Option (List ℕ)

-- The buffer after `pread(fd, buffer, count, 0)`: what was not overwritten is as it was.
abbrev pub pread_into : List ℕ → ℕ → List ℕ → List ℕ
pread_into buffer count content = take count content ++ drop (length (take count content)) buffer

-- `strtoull(ptr, &end, 10)` in a buffer from `ptr` on: the value, and the buffer from `end` on. A scan
-- that no byte of the buffer ends leaves the buffer.
unfoldable pub strtoull_in : List ℕ → Outcome (ℕ × List ℕ)
unfolding strtoull
strtoull_in ptr =
    let (_, number) = sign (skip_spaces ptr) in
    let (value, end) = strtoull ptr in
    if is_empty number || is_empty end then faults else returns (value, end)

-- `pread` with its error branch, and `strtoull` on the buffer: the value, and the buffer.
unfoldable pub read_value : ℕ → List ℕ → Option (List ℕ) → Outcome (ℕ × List ℕ)
unfolding strtoull_in
read_value count buffer none = exits 1
read_value count buffer (some content) = do
  (value, _) ← strtoull_in (pread_into buffer count content)
  returns (value, pread_into buffer count content)

-- One reading for each descriptor, through one buffer, which is returned too.
unfoldable pub read_values :
    {D : Type 0} → ℕ → Files D → List D → List ℕ → Outcome (List ℕ × List ℕ)
unfolding read_value
read_values count files [] buffer = returns ([], buffer)
read_values count files (fd ∷ sources) buffer = do
  (value, buffer') ← read_value count buffer (files fd)
  (values, after) ← read_values count files sources buffer'
  returns (value ∷ values, after)

-- The descriptor shows the number: its file begins with the number in decimal and a byte that ends
-- it, and `count` bytes reach as far.
pub record Shows {D : Type 0} (count : ℕ) (files : Files D) (fd : D) (n : ℕ) : Type 0 where
  pub end : ℕ
  pub more : List ℕ
  pub content : files fd ≡ some (decimal n ++ (end ∷ more))
  pub ends : is_digit end ≡ false
  pub fits : n < u64_mod
  pub reached : length (decimal n) < count

skip_spaces-digit : (d : ℕ) (s : List ℕ) → is_digit d ≡ true → skip_spaces (d ∷ s) ≡ d ∷ s
unfolding skip_spaces
skip_spaces-digit d s h = ground arith

sign-digit : (d : ℕ) (s : List ℕ) → is_digit d ≡ true → sign (d ∷ s) ≡ (false, d ∷ s)
unfolding sign
sign-digit d s h = ground arith

strtoull_head :
    (ptr : List ℕ) (d : ℕ) (s : List ℕ) (n end : ℕ) (more : List ℕ)
    → skip_spaces ptr ≡ d ∷ s
    → is_digit d ≡ true
    → span_digits 0 (d ∷ s) ≡ (n, end ∷ more)
    → n < u64_mod
    → strtoull_in ptr ≡ returns (n, end ∷ more)
unfolding strtoull_in
strtoull_head ptr d s n end more skip h e fits = rw (skip, sign-digit d s h, e, h) (ground arith)

skip_spaces-spaced : (d : ℕ) (s : List ℕ) → is_digit d ≡ true → skip_spaces (b' ' ∷ (d ∷ s)) ≡ d ∷ s
unfolding skip_spaces
skip_spaces-spaced d s h = ground arith

decimal_onto-head :
    (f n : ℕ) (tail : List ℕ)
    → n < f
    → (d : ℕ) × (s : List ℕ) × (decimal_onto f n tail ≡ d ∷ s) × (is_digit d ≡ true)
unfolding decimal_onto
decimal_onto-head zero n tail h = absurd (omega arith)
decimal_onto-head (suc f) n tail h = elim (Bool-cases (ltb n 10)) [
  | inl e ↦ (b'0' + n, tail, rw e refl, ground arith)
  | inr e ↦
      let (d, s, whole, digit) =
        decimal_onto-head f (n / 10) ((b'0' + n % 10) ∷ tail) (ground arith) in
      (d, s, rw e whole, digit)
]

span_digits-end :
    (n end : ℕ) (more : List ℕ)
    → is_digit end ≡ false
    → span_digits n (end ∷ more) ≡ (n, end ∷ more)
unfolding span_digits
span_digits-end n end more h = rw h refl

-- A number in decimal, and behind it a byte that is no digit, is read back whatever follows.
pub strtoull_in-decimal :
    (n end : ℕ) (more : List ℕ)
    → n < u64_mod
    → is_digit end ≡ false
    → strtoull_in (decimal n ++ (end ∷ more)) ≡ returns (n, end ∷ more)
unfolding decimal
strtoull_in-decimal n end more fits ends =
    let tail : List ℕ = end ∷ more in
    let (d, s, whole, digit) = decimal_onto-head (n + 1) n tail (omega arith) in
    let read = span_digits-decimal n tail ∙ span_digits-end n end more ends in
    rw (decimal_onto-append (n + 1) n [] tail, whole)
      (strtoull_head (d ∷ s) d s n end more (skip_spaces-digit d s digit) digit
        (rw (decimal_onto-append (n + 1) n [] tail, whole) at read) fits)

-- A string that is a number in decimal.
pub strtoull-decimal : (n : ℕ) → n < u64_mod → strtoull (decimal n) ≡ (n, [])
unfolding decimal strtoull
strtoull-decimal n fits =
    let (d, s, whole, digit) = decimal_onto-head (n + 1) n [] (omega arith) in
    let read : span_digits 0 (decimal n) ≡ (n, []) =
      ap (span_digits 0) (sym (append-nil (decimal n))) ∙ span_digits-decimal n [] in
    rw whole (
      rw (skip_spaces-digit d s digit, sign-digit d s digit, rw whole at read, digit)
        (ground arith))

-- The same for an `int`.
pub atoi-decimal : (n : ℕ) → n < 2 ^ 31 → atoi (decimal n) ≡ n
unfolding decimal atoi
atoi-decimal n fits =
    let (d, s, whole, digit) = decimal_onto-head (n + 1) n [] (omega arith) in
    let read : span_digits 0 (decimal n) ≡ (n, []) =
      ap (span_digits 0) (sym (append-nil (decimal n))) ∙ span_digits-decimal n [] in
    rw whole
      (rw (skip_spaces-digit d s digit, sign-digit d s digit, rw whole at read) (ground arith))

-- The same behind a space.
pub strtoull_in-spaced :
    (n end : ℕ) (more : List ℕ)
    → n < u64_mod
    → is_digit end ≡ false
    → strtoull_in (b' ' ∷ (decimal n ++ (end ∷ more))) ≡ returns (n, end ∷ more)
unfolding decimal
strtoull_in-spaced n end more fits ends =
    let tail : List ℕ = end ∷ more in
    let (d, s, whole, digit) = decimal_onto-head (n + 1) n tail (omega arith) in
    let read = span_digits-decimal n tail ∙ span_digits-end n end more ends in
    rw (decimal_onto-append (n + 1) n [] tail, whole)
      (strtoull_head (b' ' ∷ (d ∷ s)) d s n end more (skip_spaces-spaced d s digit) digit
        (rw (decimal_onto-append (n + 1) n [] tail, whole) at read) fits)

pub read_value-Shows :
    {D : Type 0} (count : ℕ) (files : Files D) (fd : D) (n : ℕ) (buffer : List ℕ)
    → Shows count files fd n
    → (after : List ℕ) × (read_value count buffer (files fd) ≡ returns (n, after))
unfolding read_value
read_value-Shows count files fd n buffer s =
    let content : List ℕ = decimal n ++ (s.end ∷ s.more) in
    let (rest, cut) = take_past (decimal n) s.end s.more count s.reached in
    let tail : List ℕ = drop (length (take count content)) buffer in
    let read = strtoull_in-decimal n s.end (rest ++ tail) s.fits s.ends in
    let whole =
      strtoull_in (pread_into buffer count content)
      ≡⟨ ap (λ (l : List ℕ). strtoull_in (l ++ tail)) cut ⟩
        strtoull_in ((decimal n ++ (s.end ∷ rest)) ++ tail)
      ≡⟨ ap strtoull_in (append_assoc (decimal n) (s.end ∷ rest) tail) ⟩
        strtoull_in (decimal n ++ (s.end ∷ (rest ++ tail)))
      ≡⟨ read ⟩ returns (n, s.end ∷ (rest ++ tail)) ∎ in
    (pread_into buffer count content, rw (s.content, read_value) (rw whole))

abbrev pub AllShow : {D : Type 0} → ℕ → Files D → List D → List ℕ → Type 0
AllShow count files [] [] = Unit
AllShow count files [] (n ∷ numbers) = ⊥
AllShow count files (fd ∷ sources) [] = ⊥
AllShow count files (fd ∷ sources) (n ∷ numbers) =
    Shows count files fd n × AllShow count files sources numbers

-- Each descriptor's number is read, whatever bytes the buffer held before.
pub read_values-AllShow :
    {D : Type 0} (count : ℕ) (files : Files D) (sources : List D) (numbers buffer : List ℕ)
    → AllShow count files sources numbers
    → (after : List ℕ) × (read_values count files sources buffer ≡ returns (numbers, after))
unfolding read_values
read_values-AllShow count files [] [] buffer h = (buffer, refl)
read_values-AllShow count files [] (n ∷ numbers) buffer h = absurd h
read_values-AllShow count files (fd ∷ sources) [] buffer h = absurd h
read_values-AllShow count files (fd ∷ sources) (n ∷ numbers) buffer (s, h) =
    let (buffer', first) = read_value-Shows count files fd n buffer s in
    let (after, later) = read_values-AllShow count files sources numbers buffer' h in
    (after, rw (first, read_values) (rw later))
