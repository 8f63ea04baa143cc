-- ===== src/Sensors/Temperature/Text.antt =====
-- The lines of the files of src/temperature.c as its buffers hold them.
use mojit_os.Base.{
  ltb, ◌==◌, Bool-cases, length, take, All, All-append, ℕ, zero, suc, ◌+◌, ◌/◌, ◌%◌, ◌<◌, ◌≡◌, refl,
  ap, ◌∙◌, inl, inr, Bool, false, ◌&&◌, List, [], ◌∷◌, ◌++◌, arith,
}
use mojit_os.Base.Text.{codes, upto, cstr, starts, bytes_eq, decimal_onto, decimal}
use mojit_os.Sensors.Temperature.{tidy}
use mojit_os.Sensors.Temperature.Tree.{Printed, underscores, temp_prefix}

pub take_short :
    (n : ℕ) (s : List ℕ) → length s < n → take n (s ++ (b'\n' ∷ [])) ≡ s ++ (b'\n' ∷ [])
take_short zero s h = absurd (omega arith)
take_short (suc zero) [] h = refl
take_short (suc (suc n)) [] h = refl
take_short (suc n) (c ∷ s) h = ap (λ l. c ∷ l) (take_short n s (omega arith))

pub cstr_line : (s : List ℕ) → Printed s → cstr (s ++ (b'\n' ∷ [])) ≡ s ++ (b'\n' ∷ [])
unfolding upto
cstr_line [] h = refl
cstr_line (c ∷ s) ((text, other), h) = rw text (ap (λ l. c ∷ l) (cstr_line s h))

pub tidy_line : (s : List ℕ) → Printed s → tidy (s ++ (b'\n' ∷ [])) ≡ underscores s
unfolding tidy
tidy_line [] h = refl
tidy_line (c ∷ s) ((text, other), h) = rw other (ground (arith, tidy_line s h))

-- What `tidy` leaves as it is.
abbrev Kept : List ℕ → Type 0
Kept = All (λ (b : ℕ). ((b == b' ') ≡ false) × ((b == b'\n') ≡ false))

pub tidy-Kept : (p s : List ℕ) → Kept p → tidy (p ++ s) ≡ p ++ tidy s
unfolding tidy
tidy-Kept [] s h = refl
tidy-Kept (c ∷ p) s ((a, b), h) = rw (a, b) (ap (λ l. c ∷ l) (tidy-Kept p s h))

decimal_onto-Kept : (f n : ℕ) (tail : List ℕ) → Kept tail → Kept (decimal_onto f n tail)
unfolding decimal_onto
decimal_onto-Kept zero n tail h = h
decimal_onto-Kept (suc f) n tail h = elim (Bool-cases (ltb n 10)) [
  | inl small ↦ rw small ((ground arith, ground arith), h)
  | inr large ↦
      rw large
        (decimal_onto-Kept f (n / 10) ((b'0' + n % 10) ∷ tail) ((ground arith, ground arith), h))
]

pub temp_prefix-Kept : (key : ℕ) → Kept (temp_prefix key)
unfolding decimal
temp_prefix-Kept key =
    let digits : Kept (decimal key) = decimal_onto-Kept (key + 1) key [] tt in
    All-append (λ (b : ℕ). ((b == b' ') ≡ false) × ((b == b'\n') ≡ false)) (codes "Temp_")
      (decimal key ++ codes "_")
      ((refl, refl), ((refl, refl), ((refl, refl), ((refl, refl), ((refl, refl), tt)))))
      (All-append (λ (b : ℕ). ((b == b' ') ≡ false) × ((b == b'\n') ≡ false)) (decimal key)
        (codes "_") digits ((refl, refl), tt))

-- Eight bytes of a file are those of a string of eight bytes, if its line begins with the string.
pub line_starts :
    (p name : List ℕ)
    → Printed p
    → Printed name
    → bytes_eq (cstr (take (length p) (name ++ (b'\n' ∷ [])))) p ≡ starts p name
unfolding bytes_eq upto starts
line_starts [] name hp hn = refl
line_starts (c ∷ p) [] ((text, other), hp) hn = ground (arith, other)
line_starts (c ∷ p) (b ∷ name) ((text, other), hp) ((text', other'), hn) = rw text' (
    ap (λ (x : Bool). (b == c) && x) (line_starts p name hp hn)
    ∙ ap (λ (x : Bool). x && starts p name) (swapped b c))
  where
    swapped : (x y : ℕ) → (x == y) ≡ (y == x)
    swapped x y = ground arith
