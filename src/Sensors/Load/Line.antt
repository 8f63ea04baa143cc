-- ===== src/Sensors/Load/Line.antt =====
-- What src/load.c reads from /proc/stat.
use mojit_os.Base.{
  length, take, drop, All, take_whole, Outcome, returns, ◌>>=◌, ℕ, suc, ◌≤◌, ◌≡◌, refl, sym, ap,
  ◌∙◌, Option, some, List, [], ◌∷◌, ◌++◌, append_assoc,
}
use mojit_os.Base.Text.{decimal}
use mojit_os.Sensors.Deltas.{IsU64, differences}
use mojit_os.Sensors.Load.{load_values_size, Load, read_loads, _get_load, get_load}
use mojit_os.Sensors.Reading.{pread_into, strtoull_in-decimal, strtoull_in-spaced}
use mojit_os.Util.{skip_to_digit, NoDigit, skip_to_digit-decimal}

-- Numbers in decimal, a space in front of each.
abbrev pub spaced : List ℕ → List ℕ → List ℕ
spaced [] tail = tail
spaced (n ∷ numbers) tail = b' ' ∷ (decimal n ++ spaced numbers tail)

-- A byte that is no digit follows each number.
spaced-head :
    (numbers : List ℕ) (end : ℕ) (more : List ℕ)
    → NoDigit end
    → (c : ℕ) × (rest : List ℕ) × (spaced numbers (end ∷ more) ≡ c ∷ rest) × NoDigit c
spaced-head [] end more h = (end, more, refl, h)
spaced-head (n ∷ numbers) end more h = (b' ', decimal n ++ spaced numbers (end ∷ more), refl, refl)

read_loads-spaced :
    (numbers : List ℕ) (end : ℕ) (more : List ℕ)
    → All IsU64 numbers
    → NoDigit end
    → read_loads (length numbers) (spaced numbers (end ∷ more)) ≡ returns numbers
unfolding read_loads
read_loads-spaced [] end more h he = refl
read_loads-spaced (n ∷ numbers) end more (h, hs) he =
    let (c, rest, e, hc) = spaced-head numbers end more he in
    rw (e, strtoull_in-spaced n c rest h hc)
      (rw (rw e at (read_loads-spaced numbers end more hs he)) refl)

-- /proc/stat begins with a line of a name, without a digit in it, and numbers; the first 1023 bytes
-- hold ten numbers and the byte behind them.
pub record ShowsLine (stat : Option (List ℕ)) (numbers : List ℕ) : Type 0 where
  pub name : List ℕ
  pub first : ℕ
  pub others : List ℕ
  pub end : ℕ
  pub more : List ℕ
  pub content : stat ≡ some (name ++ (decimal first ++ spaced others (end ∷ more)))
  pub whole : numbers ≡ first ∷ others
  pub no_digit : All NoDigit name
  pub small : All IsU64 numbers
  pub count : length numbers ≡ load_values_size
  pub ends : NoDigit end
  pub reached : length (name ++ (decimal first ++ spaced others (end ∷ []))) ≤ 1023

spaced-append : (numbers s t : List ℕ) → spaced numbers s ++ t ≡ spaced numbers (s ++ t)
spaced-append [] s t = refl
spaced-append (n ∷ numbers) s t =
    rw (append_assoc (decimal n) (spaced numbers s) t, spaced-append numbers s t) refl

line-append :
    (name : List ℕ) (first : ℕ) (others s t : List ℕ)
    → (name ++ (decimal first ++ spaced others s)) ++ t
      ≡ name ++ (decimal first ++ spaced others (s ++ t))
line-append name first others s t =
    rw
      (
        append_assoc name (decimal first ++ spaced others s) t,
        append_assoc (decimal first) (spaced others s) t,
        spaced-append others s t,
      )
      refl

-- All numbers of the line, from the first digit on.
read_loads-line :
    (first : ℕ) (others : List ℕ) (end : ℕ) (more : List ℕ)
    → IsU64 first
    → All IsU64 others
    → NoDigit end
    → read_loads (suc (length others)) (decimal first ++ spaced others (end ∷ more))
      ≡ returns (first ∷ others)
unfolding read_loads
read_loads-line first others end more h hs he =
    let (c, rest, e, hc) = spaced-head others end more he in
    rw (e, strtoull_in-decimal first c rest h hc)
      (rw (rw e at (read_loads-spaced others end more hs he)) refl)

_get_load-ShowsLine :
    (stat : Option (List ℕ)) (numbers buffer : List ℕ)
    → ShowsLine stat numbers
    → (next : List ℕ) × (_get_load stat buffer ≡ returns (numbers, next))
unfolding _get_load
_get_load-ShowsLine stat numbers buffer s =
    let line : List ℕ = s.name ++ (decimal s.first ++ spaced s.others (s.end ∷ s.more)) in
    let front : List ℕ = s.name ++ (decimal s.first ++ spaced s.others (s.end ∷ [])) in
    let (rest, cut) = take_whole front s.more 1023 s.reached in
    let tail : List ℕ = rest ++ drop (length (take 1023 line)) buffer in
    let whole : line ≡ front ++ s.more =
      sym (line-append s.name s.first s.others (s.end ∷ []) s.more) in
    let seen : pread_into buffer 1023 line
        ≡ s.name ++ (decimal s.first ++ spaced s.others (s.end ∷ tail)) =
      ap (λ (l : List ℕ). l ++ drop (length (take 1023 line)) buffer) (ap (take 1023) whole ∙ cut)
      ∙ append_assoc front rest (drop (length (take 1023 line)) buffer)
      ∙ line-append s.name s.first s.others (s.end ∷ []) tail in
    let next : List ℕ = pread_into buffer 1023 line in
    let ptr =
      ap skip_to_digit seen
      ∙ skip_to_digit-decimal s.name s.first (spaced s.others (s.end ∷ tail)) s.no_digit in
    let small : All IsU64 (s.first ∷ s.others) = rw s.whole at s.small in
    let read : read_loads load_values_size (decimal s.first ++ spaced s.others (s.end ∷ tail))
        ≡ returns numbers =
      ap (λ (n : ℕ). read_loads n (decimal s.first ++ spaced s.others (s.end ∷ tail)))
        (sym s.count ∙ ap length s.whole)
      ∙ read_loads-line s.first s.others s.end tail small.0 small.1 s.ends
      ∙ ap returns (sym s.whole) in
    (
      next,
      rw (s.content, _get_load)
          (ap
              (λ (m : Outcome (List ℕ)).
                m >>= λ p. read_loads load_values_size p >>= λ v. returns (v, next))
              ptr
            ∙ ap (λ (m : Outcome (List ℕ)). m >>= λ v. returns (v, next)) read),
    )

-- When /proc/stat shows its ten numbers, `get_load` gives their differences to the last ones and keeps
-- them, whatever the buffer held.
pub get_load-ShowsLine :
    (stat : Option (List ℕ)) (numbers : List ℕ) (m : Load)
    → ShowsLine stat numbers
    → (next : List ℕ) × (get_load stat m
        ≡ returns (
          differences numbers m.load_values,
          record { buffer = next; load_values = numbers; tmp_load_values = numbers },
        ))
unfolding get_load
get_load-ShowsLine stat numbers m s =
    let (next, run) = _get_load-ShowsLine stat numbers m.buffer s in (next, rw run refl)
