-- ===== src/Program/Display/Columns.antt =====
-- The columns of what src/display_manager.c writes.
use mojit_os.Base.{
  ◌==◌, if◌then◌else◌, Bool-cases, length, All, length-append, length-map, All-append, returns, ℕ,
  suc, ◌≡◌, refl, sym, ap, ◌∙◌, ◌↔◌, inl, inr, Bool, true, false, not, none, List, [], ◌∷◌, ◌++◌,
  map, append-nil, arith,
}
use mojit_os.Base.Text.{codes, decimal, tokens}
use mojit_os.Program.Display.{
  open_output, label_columns, header_text, init_manager_display, nine_digits, Timespec, time_text,
  value_columns, row_text, use_manager_display,
}
use mojit_os.Program.Display.Words.{
  IsWord, columns_text, tokens-columns, decimal-IsWord, nine_digits-no_space, is_empty-append,
  decimals-IsWord,
}

-- The columns of a row.
abbrev pub row_columns : Timespec → List ℕ → ℕ → List (List ℕ)
row_columns ts values stat_data =
    time_text ts ∷ (map decimal values ++ (if stat_data == 0 then [] else decimal stat_data ∷ []))

abbrev pub header_columns : List (List ℕ) → Bool → List (List ℕ)
header_columns labels stat_mode =
    codes "#timestamp" ∷ (labels ++ (if stat_mode then codes "overhead" ∷ [] else []))

label_columns-text :
    (labels : List (List ℕ)) (more : List (List ℕ))
    → label_columns labels (columns_text more) ≡ columns_text (labels ++ more)
unfolding columns_text
label_columns-text [] more = refl
label_columns-text (l ∷ labels) more = ap (λ t. b' ' ∷ (l ++ t)) (label_columns-text labels more)

value_columns-text :
    (values : List ℕ) (more : List (List ℕ))
    → value_columns values (columns_text more) ≡ columns_text (map decimal values ++ more)
unfolding columns_text
value_columns-text [] more = refl
value_columns-text (v ∷ values) more =
    ap (λ t. b' ' ∷ (decimal v ++ t)) (value_columns-text values more)

time_text-IsWord : (ts : Timespec) → IsWord (time_text ts)
time_text-IsWord ts =
    let (some_byte, no_space) = decimal-IsWord ts.tv_sec in
    let rest : List ℕ = b'.' ∷ nine_digits ts.tv_nsec in
    (
      is_empty-append (decimal ts.tv_sec) rest some_byte,
      All-append (λ c. (c == b' ') ≡ false) (decimal ts.tv_sec) rest no_space
          (refl, nine_digits-no_space ts.tv_nsec),
    )

-- A first word, values and more columns.
tokens-value_columns :
    (w : List ℕ) (values : List ℕ) (more : List (List ℕ))
    → IsWord w
    → All IsWord more
    → tokens b' ' (w ++ value_columns values (columns_text more)) ≡ w ∷ (map decimal values ++ more)
tokens-value_columns w values more hw hm =
    ap (λ t. tokens b' ' (w ++ t)) (value_columns-text values more)
    ∙ tokens-columns w (map decimal values ++ more) hw
        (All-append IsWord (map decimal values) more (decimals-IsWord values) hm)

tokens-label_columns :
    (w : List ℕ) (labels more : List (List ℕ))
    → IsWord w
    → All IsWord labels
    → All IsWord more
    → tokens b' ' (w ++ label_columns labels (columns_text more)) ≡ w ∷ (labels ++ more)
tokens-label_columns w labels more hw hl hm =
    ap (λ t. tokens b' ' (w ++ t)) (label_columns-text labels more)
    ∙ tokens-columns w (labels ++ more) hw (All-append IsWord labels more hl hm)

columns_text-one : (w : List ℕ) → columns_text (w ∷ []) ≡ b' ' ∷ w
unfolding columns_text
columns_text-one w = ap (λ l. b' ' ∷ l) (append-nil w)

row_text-columns :
    (ts : Timespec) (values : List ℕ) (stat_data : ℕ)
    → tokens b' ' (row_text ts values stat_data) ≡ row_columns ts values stat_data
row_text-columns ts values stat_data = elim (Bool-cases (stat_data == 0)) [
  | inl e ↦ rw e (
      unfold columns_text in tokens-value_columns (time_text ts) values [] (time_text-IsWord ts) tt)
  | inr e ↦ rw e (
      ap (λ t. tokens b' ' (time_text ts ++ value_columns values t))
        (sym (columns_text-one (decimal stat_data)))
      ∙ tokens-value_columns (time_text ts) values (decimal stat_data ∷ []) (time_text-IsWord ts)
          (decimal-IsWord stat_data, tt))
]

-- One row is a line whose columns, between spaces, are the time, the values in decimal in their order,
-- and the overhead if it is not 0.
pub use_manager_display_columns :
    (ts : Timespec) (values : List ℕ) (stat_data : ℕ)
    → (text : List ℕ) × (use_manager_display ts values stat_data ≡ text ++ (10 ∷ []))
      × (tokens b' ' text ≡ row_columns ts values stat_data)
unfolding use_manager_display
use_manager_display_columns ts values stat_data =
    (row_text ts values stat_data, refl, row_text-columns ts values stat_data)

header_text-columns :
    (labels : List (List ℕ)) (stat_mode : Bool)
    → All IsWord labels
    → tokens b' ' (header_text labels stat_mode) ≡ header_columns labels stat_mode
header_text-columns labels stat_mode words = columns stat_mode
  where
    start : IsWord (codes "#timestamp")
    start =
        (refl, (refl, (refl, (refl, (refl, (refl, (refl, (refl, (refl, (refl, (refl, tt)))))))))))

    columns : (b : Bool) → tokens b' ' (header_text labels b) ≡ header_columns labels b
    columns false =
        unfold columns_text in tokens-label_columns (codes "#timestamp") labels [] start words tt
    columns true =
        unfold columns_text in
        tokens-label_columns (codes "#timestamp") labels (codes "overhead" ∷ []) start words
          ((refl, (refl, (refl, (refl, (refl, (refl, (refl, (refl, (refl, tt))))))))), tt)

-- The header is a line whose columns are `#timestamp`, the labels in their order, and `overhead` if it
-- is asked for, when no label has a space in it or is empty.
pub init_manager_display_columns :
    (labels : List (List ℕ)) (stat_mode : Bool)
    → All IsWord labels
    → (text : List ℕ) × (init_manager_display none labels stat_mode ≡ returns (text ++ (10 ∷ [])))
      × (tokens b' ' text ≡ header_columns labels stat_mode)
unfolding init_manager_display open_output
init_manager_display_columns labels stat_mode words =
    (header_text labels stat_mode, refl, header_text-columns labels stat_mode words)

-- The lengths of two lists, each with or without one more element.
one_more :
    (without with_one : Bool) (xs ys : List (List ℕ)) (x y : List ℕ)
    → length xs ≡ length ys
    → (suc (length (xs ++ (if without then [] else x ∷ [])))
        ≡ suc (length (ys ++ (if with_one then y ∷ [] else []))))
      ↔ (without ≡ not with_one)
one_more true true xs ys x y same = (
  λ h. absurd (omega (arith, h, same, length-append xs [], length-append ys (y ∷ []))),
  λ h. absurd cc,
)
one_more true false xs ys x y same =
    (λ h. refl, λ h. omega (arith, same, length-append xs [], length-append ys []))
one_more false true xs ys x y same =
    (λ h. refl, λ h. omega (arith, same, length-append xs (x ∷ []), length-append ys (y ∷ [])))
one_more false false xs ys x y same = (
  λ h. absurd (omega (arith, h, same, length-append xs (x ∷ []), length-append ys [])),
  λ h. absurd cc,
)

-- If there is a value for each label, and no label is empty or has a space in it, a row has as many
-- columns as the header just when the overhead is asked for and not 0, or is 0 and not asked for.
pub use_manager_display_aligned :
    (ts : Timespec) (labels : List (List ℕ)) (values : List ℕ) (stat_mode : Bool) (stat_data : ℕ)
    → length values ≡ length labels
    → All IsWord labels
    → (length (tokens b' ' (row_text ts values stat_data))
        ≡ length (tokens b' ' (header_text labels stat_mode)))
      ↔ ((stat_data == 0) ≡ not stat_mode)
use_manager_display_aligned ts labels values stat_mode stat_data same words =
    rw (row_text-columns ts values stat_data, header_text-columns labels stat_mode words)
      (one_more (stat_data == 0) stat_mode (map decimal values) labels (decimal stat_data)
        (codes "overhead") (length-map decimal values ∙ same))
