-- ===== src/Util.antt =====
-- src/util.c: differences of counters that wrap, and numbers read out of a byte buffer.
mod Tests
use mojit_os.Base.{
  ltb, leb, if◌then◌else◌, ltb→lt, Bool-cases, All, Outcome, returns, faults, ◌>>=◌, ℕ, zero, suc,
  ◌+◌, ◌-◌, ◌*◌, ◌/◌, ◌%◌, ◌≤◌, ◌<◌, ◌≡◌, refl, ◌∙◌, ◌↔◌, inl, inr, true, false, ◌&&◌, ◌||◌, List,
  [], ◌∷◌, ◌++◌, arith,
}
use mojit_os.Base.Text.{u64_mod, is_digit, decimal_onto, decimal, decimal_onto-append}
use native.Mathlib.Nat.{mod-eq_of_lt, mod-eq-sub-mod}

-- `lhs - rhs`, or `(UINT64_MAX - rhs + 1) + lhs` when the counter has wrapped in between.
unfoldable pub modulo_substraction : ℕ → ℕ → ℕ
modulo_substraction lhs rhs =
    if leb rhs lhs then lhs - rhs else (u64_mod - 1 - rhs + 1 + lhs) % u64_mod

-- The same for a counter whose greatest value is `modulo`. `modulo - rhs` wraps too.
unfoldable pub modulo_substraction_bound : ℕ → ℕ → ℕ → ℕ
modulo_substraction_bound lhs rhs modulo =
    if leb rhs lhs then lhs - rhs else (modulo + u64_mod - rhs + 1 + lhs) % u64_mod

-- The first loop of `read_int`: on to the first digit. Bytes above 127 are negative `char`s, and no
-- digits either way. The loop has no other end, so without a digit it leaves the buffer.
unfoldable pub skip_to_digit : List ℕ → Outcome (List ℕ)
skip_to_digit [] = faults
skip_to_digit (c ∷ s) = if ltb b'9' c || ltb c b'0' then skip_to_digit s else returns (c ∷ s)

-- The second loop: `*val = *val * 10 + (*ptr - '0')` over the digits.
unfoldable pub read_digits : ℕ → List ℕ → Outcome (ℕ × List ℕ)
read_digits val [] = faults
read_digits val (c ∷ s) =
    if leb c b'9' && leb b'0' c
    then read_digits ((val * 10 + (c - b'0')) % u64_mod) s
    else returns (val, c ∷ s)

-- The list is the buffer from `ptr` on; the result is `*val` and the buffer from the new `ptr` on.
unfoldable pub read_int : List ℕ → Outcome (ℕ × List ℕ)
unfolding skip_to_digit read_digits
read_int ptr = do s ← skip_to_digit ptr; read_digits 0 s

-- The difference of two values of a 64-bit counter is the one step, below 2^64, that leads from the
-- earlier value to the later one around the cycle of 2^64 values.
pub modulo_substraction_unique :
    (lhs rhs step : ℕ)
    → lhs < u64_mod
    → rhs < u64_mod
    → step < u64_mod
    → (modulo_substraction lhs rhs ≡ step) ↔ ((rhs + step) % u64_mod ≡ lhs)
unfolding modulo_substraction
modulo_substraction_unique lhs rhs step hl hr hs = (λ h. ground arith, λ h. ground arith)

-- One turn around a cycle of `m` values at most.
mod_turn : (x m : ℕ) → x < m + m → x % m ≡ (if ltb x m then x else x - m)
mod_turn x m h = elim (Bool-cases (ltb x m)) [
  | inl e ↦ rw e (mod-eq_of_lt (ltb→lt x m e))
  | inr e ↦ rw e (mod-eq-sub-mod (ground arith) ∙ mod-eq_of_lt (ground arith))
]

-- For a counter that runs from 0 to `modulo`, with `modulo` itself below 2^64, the bounded difference
-- of two of its values is the one step, at most `modulo`, that leads from the earlier value to the
-- later one around the cycle of `modulo + 1` values.
pub modulo_substraction_bound_unique :
    (lhs rhs modulo step : ℕ)
    → lhs ≤ modulo
    → rhs ≤ modulo
    → modulo < u64_mod
    → step ≤ modulo
    → (modulo_substraction_bound lhs rhs modulo ≡ step) ↔ ((rhs + step) % (modulo + 1) ≡ lhs)
unfolding modulo_substraction_bound
modulo_substraction_bound_unique lhs rhs modulo step hl hr hm hs =
    let turn = mod_turn (rhs + step) (modulo + 1) (omega arith) in
    (λ h. ground (arith, turn), λ h. ground (arith, turn))

abbrev pub IsDigit : ℕ → Type 0
IsDigit c = is_digit c ≡ true

abbrev pub NoDigit : ℕ → Type 0
NoDigit c = is_digit c ≡ false

skip_to_digit_pad : (pad s : List ℕ) → All NoDigit pad → skip_to_digit (pad ++ s) ≡ skip_to_digit s
unfolding skip_to_digit
skip_to_digit_pad [] s h = refl
skip_to_digit_pad (c ∷ pad) s h = ground (arith, skip_to_digit_pad pad s h.1)

skip_to_digit-decimal_onto :
    (f n : ℕ) (tail : List ℕ)
    → n < f
    → skip_to_digit (decimal_onto f n tail) ≡ returns (decimal_onto f n tail)
unfolding skip_to_digit decimal_onto
skip_to_digit-decimal_onto zero n tail h = absurd (omega arith)
skip_to_digit-decimal_onto (suc f) n tail h =
    ground (arith, skip_to_digit-decimal_onto f (n / 10) ((b'0' + n % 10) ∷ tail))

read_digits-decimal_onto :
    (f n : ℕ) (tail : List ℕ)
    → n < f
    → n < u64_mod
    → read_digits 0 (decimal_onto f n tail) ≡ read_digits n tail
unfolding read_digits decimal_onto
read_digits-decimal_onto zero n tail h hn = absurd (omega arith)
read_digits-decimal_onto (suc f) n tail h hn =
    ground (arith, read_digits-decimal_onto f (n / 10) ((b'0' + n % 10) ∷ tail))

pub skip_to_digit-decimal :
    (pad : List ℕ) (n : ℕ) (tail : List ℕ)
    → All NoDigit pad
    → skip_to_digit (pad ++ (decimal n ++ tail)) ≡ returns (decimal n ++ tail)
unfolding decimal
skip_to_digit-decimal pad n tail hp =
    rw (skip_to_digit_pad pad _ hp, decimal_onto-append (n + 1) n [] tail)
      (skip_to_digit-decimal_onto (n + 1) n tail (omega arith))

-- Behind any bytes that are no digits, `read_int` reads back a uint64_t that stands there in decimal,
-- if a byte that is no digit follows it, and leaves the pointer at that byte.
pub read_int-decimal :
    (pad : List ℕ) (n c : ℕ) (rest : List ℕ)
    → All NoDigit pad
    → n < u64_mod
    → NoDigit c
    → read_int (pad ++ (decimal n ++ (c ∷ rest))) ≡ returns (n, c ∷ rest)
unfolding read_int decimal
read_int-decimal pad n c rest hp hn hc =
    let room : n < n + 1 = omega arith in
    let tail : List ℕ = c ∷ rest in
    rw
      (
        skip_to_digit_pad pad _ hp,
        decimal_onto-append (n + 1) n [] tail,
        skip_to_digit-decimal_onto (n + 1) n tail room,
        read_digits-decimal_onto (n + 1) n tail room hn,
      )
      (unfold read_digits in ground arith)

skip_to_digit_overrun : (s : List ℕ) → All NoDigit s → skip_to_digit s ≡ faults
unfolding skip_to_digit
skip_to_digit_overrun [] h = refl
skip_to_digit_overrun (c ∷ s) h = ground (arith, skip_to_digit_overrun s h.1)

-- Without a digit in the buffer `read_int` reads past its end.
pub read_int_overrun : (s : List ℕ) → All NoDigit s → read_int s ≡ faults
unfolding read_int
read_int_overrun s h = rw (skip_to_digit_overrun s h)
