-- ===== src/Program/Main/Application.antt =====
-- The program that src/mojitos.c runs: the words behind the first `--`.
use mojit_os.Base.{All, ℕ, ◌≡◌, refl, false, some, List, [], ◌∷◌, ◌++◌}
use mojit_os.Base.Text.{codes, bytes_eq}
use mojit_os.Program.Main.{OptEntry, find_application, measuring, launch}

abbrev pub NoDashes : List (List ℕ) → Type 0
NoDashes = All (λ (word : List ℕ). bytes_eq (codes "--") word ≡ false)

-- The words of a call with a program to run.
abbrev pub words_of : List (List ℕ) → List ℕ → List (List ℕ) → List (List ℕ)
words_of front word rest = front ++ (codes "--" ∷ (word ∷ rest))

pub find_application-words :
    (front : List (List ℕ)) (word : List ℕ) (rest : List (List ℕ))
    → NoDashes front
    → find_application (words_of front word rest) (words_of front word rest) ≡ some (word ∷ rest)
unfolding find_application bytes_eq
find_application-words [] word rest h = refl
find_application-words (w ∷ []) word rest (hw, h) = rw hw (find_application-words [] word rest tt)
find_application-words (w ∷ (v ∷ front)) word rest (hw, h) =
    rw hw (find_application-words (v ∷ front) word rest h)

pub launch-words :
    (name : List ℕ) (front : List (List ℕ)) (word : List ℕ) (rest : List (List ℕ))
    (moj_opts : List OptEntry)
    → launch (words_of (name ∷ front) word rest) moj_opts ≡ measuring
unfolding launch
launch-words name [] word rest moj_opts = refl
launch-words name (v ∷ []) word rest moj_opts = refl
launch-words name (v ∷ (u ∷ front)) word rest moj_opts = refl
