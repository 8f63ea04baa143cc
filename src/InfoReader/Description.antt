-- ===== src/InfoReader/Description.antt =====
-- What a file of blocks is, and what `parse` makes of it, without a cursor: each block fills the struct
-- of its own index by its first `nb_keys` lines that match.
use mojit_os.Base.{
  ◌==◌, if◌then◌else◌, length, All, ℕ, ◌+◌, ◌-◌, ◌<◌, ◌≢◌, none, some, List, [], ◌∷◌, ◌++◌,
}
use mojit_os.InfoReader.{max_page_size, newline, KeyFinder, match}

abbrev pub IsText : ℕ → Type 0
IsText c = (c ≢ newline) × (c ≢ 0)

-- A line with a character in it that fits the buffer of `buffer_getline`.
pub record IsLine (line : List ℕ) : Type 0 where
  pub text : All IsText line
  pub some_byte : 0 < length line
  pub short : length line < max_page_size - 1

abbrev pub IsBlock : List (List ℕ) → Type 0
IsBlock = All IsLine

-- A block as it stands in a file: its lines and an empty line.
abbrev pub render_block : List (List ℕ) → List ℕ → List ℕ
render_block [] rest = newline ∷ rest
render_block (line ∷ lines) rest = line ++ (newline ∷ render_block lines rest)

abbrev pub render : List (List (List ℕ)) → List ℕ → List ℕ
render [] rest = rest
render (block ∷ blocks) rest = render_block block (render blocks rest)

module _ {S : Type 0} (keys : List (KeyFinder S)) where
  -- A line of a block: the count of keys that were assigned, and the struct.
  abbrev pub take_line : ℕ → S → List ℕ → ℕ × S
  take_line k s line = if k == length keys then (k, s) else elim (match keys line) [
    | none ↦ (k, s)
    | some (finder, raw) ↦ (k + 1, finder.set s (finder.copy raw))
  ]

  abbrev pub take_lines : ℕ → S → List (List ℕ) → ℕ × S
  take_lines k s [] = (k, s)
  take_lines k s (line ∷ lines) = let (k', s') = take_line k s line in take_lines k' s' lines

  -- The struct after a block.
  abbrev pub fill : S → List (List ℕ) → S
  fill s block = (take_lines 0 s block).1

  -- The structs after blocks, where each has a struct of its own.
  abbrev pub fill_all : List S → List (List (List ℕ)) → List S
  fill_all [] blocks = []
  fill_all (s ∷ slots) [] = s ∷ slots
  fill_all (s ∷ slots) (block ∷ blocks) = fill s block ∷ fill_all slots blocks
