-- ===== src/Program/Display.antt =====
-- src/display_manager.c: the text that the program writes.
mod Words
mod Columns
mod Tests
use mojit_os.Base.{
  ◌==◌, if◌then◌else◌, Outcome, returns, exits, ◌>>=◌, ℕ, ◌+◌, ◌/◌, ◌%◌, ◌^◌, Bool, true, false,
  Option, none, some, List, [], ◌∷◌, ◌++◌,
}
use mojit_os.Base.Text.{codes, decimal}

-- What the open file receives. `file` is what `fopen` answers, if a file was asked for.
unfoldable pub open_output : Option Bool → Outcome (Unit {0})
open_output none = returns tt
open_output (some true) = returns tt
open_output (some false) = exits 1

abbrev pub label_columns : List (List ℕ) → List ℕ → List ℕ
label_columns [] tail = tail
label_columns (label ∷ labels) tail = b' ' ∷ (label ++ label_columns labels tail)

-- `stat_mode` is 0 where the overhead is asked for; here that is `true`.
abbrev pub header_text : List (List ℕ) → Bool → List ℕ
header_text labels stat_mode =
    codes "#timestamp" ++ label_columns labels (if stat_mode then codes " overhead" else [])

unfoldable pub init_manager_display : Option Bool → List (List ℕ) → Bool → Outcome (List ℕ)
unfolding open_output
init_manager_display file labels stat_mode = do
  _ ← open_output file
  returns (header_text labels stat_mode ++ (10 ∷ []))

-- `%09ld` on a number below 10^9: the digits from the greatest on.
abbrev pub nine_digits : ℕ → List ℕ
nine_digits n =
    (b'0' + n / 10 ^ 8 % 10)
    ∷ (b'0' + n / 10 ^ 7 % 10)
    ∷ (b'0' + n / 10 ^ 6 % 10)
    ∷ (b'0' + n / 10 ^ 5 % 10)
    ∷ (b'0' + n / 10 ^ 4 % 10)
    ∷ (b'0' + n / 10 ^ 3 % 10)
    ∷ (b'0' + n / 10 ^ 2 % 10)
    ∷ (b'0' + n / 10 % 10)
    ∷ (b'0' + n % 10)
    ∷ []

-- `struct timespec` of a time after 1970, with `tv_nsec` below 10^9.
pub record Timespec : Type 0 where
  pub tv_sec : ℕ
  pub tv_nsec : ℕ

abbrev pub time_text : Timespec → List ℕ
time_text ts = decimal ts.tv_sec ++ (b'.' ∷ nine_digits ts.tv_nsec)

abbrev pub value_columns : List ℕ → List ℕ → List ℕ
value_columns [] tail = tail
value_columns (v ∷ values) tail = b' ' ∷ (decimal v ++ value_columns values tail)

abbrev pub row_text : Timespec → List ℕ → ℕ → List ℕ
row_text ts values stat_data =
    time_text ts ++ value_columns values (if stat_data == 0 then [] else b' ' ∷ decimal stat_data)

-- What one call writes.
unfoldable pub use_manager_display : Timespec → List ℕ → ℕ → List ℕ
use_manager_display ts values stat_data = row_text ts values stat_data ++ (10 ∷ [])
