-- ===== src/Sensors/Routes/Scan.antt =====
-- The search for a byte in the buffer of the route file, at bytes that are known.
use mojit_os.Base.{
  ◌==◌, length, set, take, drop, All, returns, ℕ, zero, suc, ◌+◌, ◌-◌, ◌≡◌, refl, ap, ◌∙◌, Bool,
  true, false, not, ◌&&◌, none, some, List, [], ◌∷◌, ◌++◌, arith,
}
use mojit_os.Base.Text.{upto, cstr}
use mojit_os.Sensors.Routes.{
  Input, strchr, refill, found_or_refill, strchr_refill, found_at, jump, end_of_name, next_name,
}

-- Bytes that `strchr` for `c` passes.
abbrev pub Passes : ℕ → List ℕ → Type 0
Passes c = All (λ (b : ℕ). ((b == c) ≡ false) × ((b == 0) ≡ false))

pub drop-drop : (n m k : ℕ) (xs : List ℕ) → n ≡ m + k → drop n xs ≡ drop k (drop m xs)
drop-drop n zero k xs e = let same : n ≡ k = omega arith in rw same refl
drop-drop zero (suc m) k xs e = absurd (omega arith)
drop-drop (suc n) (suc m) zero [] e = refl
drop-drop (suc n) (suc m) (suc k) [] e = refl
drop-drop (suc n) (suc m) k (x ∷ xs) e = drop-drop n m k xs (omega arith)

pub drop-append : (a t : List ℕ) → drop (length a) (a ++ t) ≡ t
drop-append [] t = refl
drop-append (x ∷ a) t = drop-append a t

-- Behind what was found.
pub drop-past :
    (s c : ℕ) (buffer a t : List ℕ)
    → drop s buffer ≡ a ++ (c ∷ t)
    → drop (s + length a + 1) buffer ≡ t
drop-past s c buffer a t e =
    drop-drop (s + length a + 1) (s + length a) 1 buffer refl
    ∙ ap (drop 1) (
        drop-drop (s + length a) s (length a) buffer refl
        ∙ ap (drop (length a)) e
        ∙ drop-append a (c ∷ t))

-- At what was found.
pub drop-at :
    (s : ℕ) (buffer a t : List ℕ) → drop s buffer ≡ a ++ t → drop (s + length a) buffer ≡ t
drop-at s buffer a t e =
    drop-drop (s + length a) s (length a) buffer refl ∙ ap (drop (length a)) e ∙ drop-append a t

pub strchr-Passes :
    (c : ℕ) (a t : List ℕ) → Passes c a → strchr c (a ++ (c ∷ t)) ≡ returns (some (length a))
unfolding strchr
strchr-Passes c [] t h = ground arith
strchr-Passes c (b ∷ a) t ((other, text), h) = rw (other, text, strchr-Passes c a t h) refl

pub jump-Passes :
    (len s c : ℕ) (input : Input) (a t : List ℕ)
    → drop s input.buffer ≡ a ++ (c ∷ t)
    → Passes c a
    → jump len s c input ≡ returns (some (s + length a), input)
unfolding jump strchr_refill found_or_refill found_at
jump-Passes len s c input a t e h = rw (e, strchr-Passes c a t h) refl

-- From within a line to the end of the next one's name.
pub next_name-Passes :
    (len s : ℕ) (input : Input) (a name t : List ℕ)
    → drop s input.buffer ≡ a ++ (b'\n' ∷ (name ++ (b'\t' ∷ t)))
    → Passes b'\n' a
    → Passes b'\t' name
    → next_name len s input
      ≡ returns (some (s + length a + 1, s + length a + 1 + length name), input)
unfolding next_name end_of_name
next_name-Passes len s input a name t e ha hn =
    let line = jump-Passes len s b'\n' input a (name ++ (b'\t' ∷ t)) e ha in
    let behind = drop-past s b'\n' input.buffer a (name ++ (b'\t' ∷ t)) e in
    rw (line, end_of_name)
      (rw (jump-Passes len (s + length a + 1) b'\t' input name t behind hn) refl)

-- At the NUL behind the last line, when the file has no more.
jump_end :
    (len s : ℕ) (buffer z : List ℕ)
    → drop s buffer ≡ 0 ∷ z
    → jump len s b'\t' (record { reads = []; buffer = buffer })
      ≡ returns (none, record { reads = []; buffer = set buffer (len - 1) 0 })
unfolding jump strchr_refill strchr found_or_refill refill found_at
jump_end len s buffer z e = rw e refl

-- In the last line.
pub next_name_last :
    (len s : ℕ) (buffer a z : List ℕ)
    → drop s buffer ≡ a ++ (b'\n' ∷ (0 ∷ z))
    → Passes b'\n' a
    → (input : Input) × (next_name len s (record { reads = []; buffer = buffer })
        ≡ returns (none, input))
unfolding next_name end_of_name
next_name_last len s buffer a z e ha =
    let input : Input = record { reads = []; buffer = buffer } in
    let line = jump-Passes len s b'\n' input a (0 ∷ z) e ha in
    let behind = drop-past s b'\n' buffer a (0 ∷ z) e in
    (
      record { reads = []; buffer = set buffer (len - 1) 0 },
      rw (line, end_of_name) (rw (jump_end len (s + length a + 1) buffer z behind) refl),
    )

pub upto-Passes : (c : ℕ) (a t : List ℕ) → Passes c a → cstr (a ++ t) ≡ a ++ cstr t
unfolding upto
upto-Passes c [] t h = refl
upto-Passes c (b ∷ a) t ((other, text), h) = rw text (ap (λ l. b ∷ l) (upto-Passes c a t h))

pub take-append : (a t : List ℕ) → take (length a) (a ++ t) ≡ a
take-append [] t = refl
take-append (x ∷ a) t = ap (λ l. x ∷ l) (take-append a t)

-- The same as a test.
abbrev pub passes : ℕ → List ℕ → Bool
passes c [] = true
passes c (b ∷ t) = not (b == c) && not (b == 0) && passes c t

pub passes-Passes : (c : ℕ) (t : List ℕ) → passes c t ≡ true → Passes c t
passes-Passes c [] h = tt
passes-Passes c (b ∷ t) h = (ground arith, passes-Passes c t (ground arith))
