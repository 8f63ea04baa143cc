-- ===== src/Base/Text.antt =====
-- C strings: lists of bytes with no terminating NUL, and the functions of the C library that the
-- sources call on them. A byte is a number below 256.
use mojit_os.Base.{
  ltb, leb, ◌==◌, if◌then◌else◌, Bool-cases, length, is_empty, ℕ, zero, suc, ◌+◌, ◌-◌, ◌*◌, ◌/◌,
  ◌%◌, ◌^◌, ◌≤◌, ◌<◌, ◌≡◌, refl, ◌↔◌, inl, inr, Bool, true, false, ◌&&◌, ◌||◌, List, [], ◌∷◌, ◌++◌,
  arith,
}
use native.Mathlib.Nat.{pow-suc}
use Prim.Native.Char.{code}
use Prim.Native.String.{String}

abbrev pub u64_mod : ℕ
u64_mod = 2 ^ 64

-- The bytes of a text literal.
abbrev pub codes : String → List ℕ
codes String.[] = []
codes (String.◌∷◌ c s) = code c ∷ codes s

-- The bytes in front of the first `c`, or all of them.
unfoldable pub upto : ℕ → List ℕ → List ℕ
upto c [] = []
upto c (b ∷ s) = if b == c then [] else b ∷ upto c s

-- A buffer read as a string ends at its first NUL.
abbrev pub cstr : List ℕ → List ℕ
cstr = upto 0

abbrev pub is_digit : ℕ → Bool
is_digit c = leb b'0' c && leb c b'9'

-- The number that the leading digits spell, on top of `acc`, and what follows them.
unfoldable pub span_digits : ℕ → List ℕ → ℕ × List ℕ
span_digits acc [] = (acc, [])
span_digits acc (c ∷ s) = if is_digit c then span_digits (acc * 10 + (c - b'0')) s else (acc, c ∷ s)

-- `isspace` of the C locale.
abbrev pub is_space : ℕ → Bool
is_space c = c == b' ' || (leb 9 c && leb c 13)

unfoldable pub skip_spaces : List ℕ → List ℕ
skip_spaces [] = []
skip_spaces (c ∷ s) = if is_space c then skip_spaces s else c ∷ s

-- An optional sign: whether it is a minus, and what follows it.
unfoldable pub sign : List ℕ → Bool × List ℕ
sign [] = (false, [])
sign (c ∷ s) = if c == b'-' then (true, s) else if c == b'+' then (false, s) else (false, c ∷ s)

unfoldable pub has_digit : List ℕ → Bool
has_digit [] = false
has_digit (c ∷ s) = is_digit c

abbrev pub saturate : ℕ → ℕ → ℕ
saturate m n = if leb n m then n else m

-- `strtoull(s, &end, 10)`: the value and `end`. With no digits the value is 0 and `end` is `s`.
unfoldable pub strtoull : List ℕ → ℕ × List ℕ
unfolding skip_spaces sign has_digit span_digits
strtoull s =
    let (minus, t) = sign (skip_spaces s) in
    let (v, rest) = span_digits 0 t in
    let magnitude = saturate (u64_mod - 1) v in
    if has_digit t
    then (if minus && leb v (u64_mod - 1) then (u64_mod - magnitude) % u64_mod else magnitude, rest)
    else (0, s)

-- `(size_t) strtol(s, NULL, 10)`: the 64-bit pattern of the value, which saturates.
unfoldable pub strtol : List ℕ → ℕ
unfolding skip_spaces sign span_digits
strtol s =
    let (minus, t) = sign (skip_spaces s) in
    let (v, _) = span_digits 0 t in
    if minus then (u64_mod - saturate (2 ^ 63) v) % u64_mod else saturate (2 ^ 63 - 1) v

-- `(unsigned int) atoi(s)`, which is `(int) strtol(s, NULL, 10)`.
unfoldable pub atoi : List ℕ → ℕ
unfolding strtol
atoi s = strtol s % 2 ^ 32

-- `strncmp(p, s, strlen(p)) == 0`.
unfoldable pub starts : List ℕ → List ℕ → Bool
starts [] s = true
starts (c ∷ p) [] = false
starts (c ∷ p) (b ∷ s) = c == b && starts p s

-- `strcmp(s, t) == 0`.
unfoldable pub bytes_eq : List ℕ → List ℕ → Bool
bytes_eq [] [] = true
bytes_eq [] (b ∷ t) = false
bytes_eq (a ∷ s) [] = false
bytes_eq (a ∷ s) (b ∷ t) = a == b && bytes_eq s t

-- `%u`: the decimal digits of `n` in front of `tail`; the fuel is above the number of digits.
unfoldable pub decimal_onto : ℕ → ℕ → List ℕ → List ℕ
decimal_onto zero n tail = tail
decimal_onto (suc f) n tail =
    let more = decimal_onto f (n / 10) ((b'0' + n % 10) ∷ tail) in
    if ltb n 10 then (b'0' + n) ∷ tail else more

unfoldable pub decimal : ℕ → List ℕ
unfolding decimal_onto
decimal n = decimal_onto (n + 1) n []

pub decimal_onto-append :
    (f n : ℕ) (s t : List ℕ) → decimal_onto f n s ++ t ≡ decimal_onto f n (s ++ t)
unfolding decimal_onto
decimal_onto-append zero n s t = refl
decimal_onto-append (suc f) n s t =
    ground (arith, decimal_onto-append f (n / 10) ((b'0' + n % 10) ∷ s) t)

span_digits-decimal_onto :
    (f n : ℕ) (tail : List ℕ) → n < f → span_digits 0 (decimal_onto f n tail) ≡ span_digits n tail
unfolding decimal_onto span_digits
span_digits-decimal_onto zero n tail h = absurd (omega arith)
span_digits-decimal_onto (suc f) n tail h =
    ground (arith, span_digits-decimal_onto f (n / 10) ((b'0' + n % 10) ∷ tail))

-- Reading back what `%u` printed goes on behind it with the number read.
pub span_digits-decimal :
    (n : ℕ) (tail : List ℕ) → span_digits 0 (decimal n ++ tail) ≡ span_digits n tail
unfolding decimal
span_digits-decimal n tail =
    rw decimal_onto-append (span_digits-decimal_onto (n + 1) n tail (omega arith))

pub bytes_eq_iff : (s t : List ℕ) → (bytes_eq s t ≡ true) ↔ (s ≡ t)
unfolding bytes_eq
bytes_eq_iff [] [] = (λ _. refl, λ _. refl)
bytes_eq_iff [] (b ∷ t) = (λ h. cc, λ h. cc)
bytes_eq_iff (a ∷ s) [] = (λ h. cc, λ h. cc)
bytes_eq_iff (a ∷ s) (b ∷ t) =
    (λ h. ground (arith, bytes_eq_iff s t), λ h. ground (arith, bytes_eq_iff s t))

-- `%d` on an `unsigned int`, whose upper half prints as negative numbers.
unfoldable pub decimal_int : ℕ → List ℕ
unfolding decimal
decimal_int n = if ltb n (2 ^ 31) then decimal n else b'-' ∷ decimal (2 ^ 32 - n)

-- The loop `while ((token = strtok(s, ",")) != NULL)` with the delimiter `c`: the runs of other bytes.
-- `token` is the run so far.
unfoldable pub tokens_from : ℕ → List ℕ → List ℕ → List (List ℕ)
tokens_from c token [] = if is_empty token then [] else token ∷ []
tokens_from c token (b ∷ s) =
    let next = tokens_from c [] s in
    let more = tokens_from c (token ++ (b ∷ [])) s in
    if b == c then (if is_empty token then next else token ∷ next) else more

unfoldable pub tokens : ℕ → List ℕ → List (List ℕ)
unfolding tokens_from
tokens c s = tokens_from c [] s

decimal_onto-short :
    (k f n : ℕ) (tail : List ℕ)
    → n < 10 ^ suc k
    → length (decimal_onto f n tail) ≤ suc k + length tail
unfolding decimal_onto
decimal_onto-short k zero n tail h = omega arith
decimal_onto-short zero (suc f) n tail h =
    let small : ltb n 10 ≡ true = ground (arith, h) in rw small (omega arith)
decimal_onto-short (suc k) (suc f) n tail h = elim (Bool-cases (ltb n 10)) [
  | inl e ↦ rw e (omega arith)
  | inr e ↦
      let less : n / 10 < 10 ^ suc k = omega (arith, h, pow-suc 10 (suc k)) in
      rw e (omega (arith, decimal_onto-short k f (n / 10) ((b'0' + n % 10) ∷ tail) less))
]

-- A uint64_t has 20 digits at most.
pub decimal-short : (n : ℕ) → n < u64_mod → length (decimal n) ≤ 20
unfolding decimal
decimal-short n h = omega (arith, decimal_onto-short 19 (n + 1) n [] (omega (arith, h)))
