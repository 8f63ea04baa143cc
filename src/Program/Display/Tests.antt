-- ===== src/Program/Display/Tests.antt =====
-- Runs of src/display_manager.c, and its theorems at concrete inputs.
use mojit_os.Base.{◌==◌, length, All, ℕ, ◌≡◌, refl, ◌↔◌, true, not, List, [], ◌∷◌, ◌++◌}
use mojit_os.Base.Text.{codes, decimal, tokens}
use mojit_os.Program.Display.{header_text, Timespec, row_text, use_manager_display}
use mojit_os.Program.Display.Columns.{
  row_columns, use_manager_display_columns, use_manager_display_aligned,
}
use mojit_os.Program.Display.Words.{IsWord}

abbrev noon : Timespec
noon = record { tv_sec = 1700000000; tv_nsec = 5000017 }

test_use_manager :
    use_manager_display noon (12 ∷ 0 ∷ []) 7 ≡ codes "1700000000.005000017 12 0 7" ++ (10 ∷ [])
unfolding use_manager_display decimal
test_use_manager = refl

use_manager_display_columns_example :
    (text : List ℕ) × (use_manager_display noon (12 ∷ 0 ∷ []) 7 ≡ text ++ (10 ∷ []))
    × (tokens b' ' text ≡ row_columns noon (12 ∷ 0 ∷ []) 7)
use_manager_display_columns_example = use_manager_display_columns noon (12 ∷ 0 ∷ []) 7

abbrev two_labels : List (List ℕ)
two_labels = codes "rxp" ∷ codes "txp" ∷ []

two_labels-IsWord : All IsWord two_labels
two_labels-IsWord = ((refl, (refl, (refl, (refl, tt)))), ((refl, (refl, (refl, (refl, tt)))), tt))

use_manager_display_aligned_example :
    (length (tokens b' ' (row_text noon (12 ∷ 0 ∷ []) 0))
      ≡ length (tokens b' ' (header_text two_labels true)))
    ↔ ((0 == 0) ≡ not true)
use_manager_display_aligned_example =
    use_manager_display_aligned noon two_labels (12 ∷ 0 ∷ []) true 0 refl two_labels-IsWord
