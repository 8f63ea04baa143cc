-- ===== src/Program/Display/Words.antt =====
-- Words between spaces, and that numbers are such words.
use mojit_os.Base.{
  ltb, ◌==◌, Bool-cases, All, is_empty, ℕ, zero, suc, ◌+◌, ◌/◌, ◌%◌, ◌^◌, ◌<◌, ◌≡◌, refl, sym, ap,
  ◌∙◌, inl, inr, false, List, [], ◌∷◌, ◌++◌, map, append-nil, append_assoc, arith,
}
use mojit_os.Base.Text.{decimal_onto, decimal, tokens_from, tokens}
use mojit_os.Program.Display.{nine_digits}

abbrev pub IsWord : List ℕ → Type 0
IsWord w = ((is_empty w) ≡ false) × All (λ c. (c == b' ') ≡ false) w

-- A run of bytes that are no delimiters goes on the token.
tokens_from-run :
    (w token s : List ℕ)
    → All (λ c. (c == b' ') ≡ false) w
    → tokens_from b' ' token (w ++ s) ≡ tokens_from b' ' (token ++ w) s
unfolding tokens_from
tokens_from-run [] token s h = ap (λ l. tokens_from b' ' l s) (sym (append-nil token))
tokens_from-run (c ∷ w) token s (h, hs) = rw h (
    tokens_from-run w (token ++ (c ∷ [])) s hs
    ∙ ap (λ l. tokens_from b' ' l s) (append_assoc token (c ∷ []) w))

tokens_from-space :
    (token s : List ℕ)
    → is_empty token ≡ false
    → tokens_from b' ' token (b' ' ∷ s) ≡ token ∷ tokens_from b' ' [] s
unfolding tokens_from
tokens_from-space token s h = rw h refl

tokens_from-end : (token : List ℕ) → is_empty token ≡ false → tokens_from b' ' token [] ≡ token ∷ []
unfolding tokens_from
tokens_from-end token h = rw h refl

-- A word, and then columns.
unfoldable pub columns_text : List (List ℕ) → List ℕ
columns_text [] = []
columns_text (w ∷ words) = b' ' ∷ (w ++ columns_text words)

pub tokens-columns :
    (w : List ℕ) (words : List (List ℕ))
    → IsWord w
    → All IsWord words
    → tokens b' ' (w ++ columns_text words) ≡ w ∷ words
unfolding tokens columns_text
tokens-columns w [] (some_byte, no_space) hs =
    tokens_from-run w [] [] no_space ∙ tokens_from-end w some_byte
tokens-columns w (v ∷ words) (some_byte, no_space) (h, hs) =
    tokens_from-run w [] (columns_text (v ∷ words)) no_space
    ∙ tokens_from-space w (v ++ columns_text words) some_byte
    ∙ ap (λ l. w ∷ l) (tokens-columns v words h hs)

decimal_onto-IsWord :
    (f n : ℕ) (tail : List ℕ)
    → n < f
    → All (λ c. (c == b' ') ≡ false) tail
    → IsWord (decimal_onto f n tail)
unfolding decimal_onto
decimal_onto-IsWord zero n tail h ht = absurd (omega arith)
decimal_onto-IsWord (suc f) n tail h ht = elim (Bool-cases (ltb n 10)) [
  | inl e ↦ rw e (refl, (ground arith, ht))
  | inr e ↦
      rw e
        (decimal_onto-IsWord f (n / 10) ((b'0' + n % 10) ∷ tail) (ground arith) (ground arith, ht))
]

pub decimal-IsWord : (n : ℕ) → IsWord (decimal n)
unfolding decimal
decimal-IsWord n = decimal_onto-IsWord (n + 1) n [] (omega arith) tt

pub nine_digits-no_space : (n : ℕ) → All (λ c. (c == b' ') ≡ false) (nine_digits n)
nine_digits-no_space n =
    let d : (m : ℕ) → ((b'0' + m % 10) == b' ') ≡ false = λ m. ground arith in
    (
      d (n / 10 ^ 8),
      (
        d (n / 10 ^ 7),
        (
          d (n / 10 ^ 6),
          (
            d (n / 10 ^ 5),
            (d (n / 10 ^ 4), (d (n / 10 ^ 3), (d (n / 10 ^ 2), (d (n / 10), (d n, tt))))),
          ),
        ),
      ),
    )

pub is_empty-append : (s t : List ℕ) → is_empty s ≡ false → is_empty (s ++ t) ≡ false
is_empty-append [] t h = absurd cc
is_empty-append (c ∷ s) t h = refl

pub decimals-IsWord : (values : List ℕ) → All IsWord (map decimal values)
decimals-IsWord [] = tt
decimals-IsWord (v ∷ values) = (decimal-IsWord v, decimals-IsWord values)
