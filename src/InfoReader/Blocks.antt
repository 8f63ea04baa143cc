-- ===== src/InfoReader/Blocks.antt =====
-- `parse` on a file of blocks, against a description that has no cursor: each block fills the struct
-- of its own index by its first `nb_keys` lines that match.
use mojit_os.Base.{
  leb, if◌then◌else◌, Option-cases, length, All, length-append, get_elem?-middle, set-middle,
  returns, ℕ, suc, ◌+◌, ◌<◌, ◌≡◌, refl, ◌∙◌, ◌≢◌, inl, inr, List, [], ◌∷◌, ◌++◌, append_assoc,
  arith,
}
use mojit_os.Base.Text.{upto, cstr}
use mojit_os.InfoReader.{
  replace_first, newline, buffer_getline, KeyFinder, Parser, stop, again, match, set_value,
  parse_line, parse_round, parse,
}
use mojit_os.InfoReader.Description.{
  IsText, IsLine, IsBlock, render_block, render, take_line, take_lines, fill, fill_all,
}
use mojit_os.InfoReader.Lines.{buffer_getline-line}
use mojit_os.InfoReader.Reaches.{Reaches, Reaches-again, Reaches-stop, Reaches→parse}

IsText→ne : (line : List ℕ) → All IsText line → All (λ c. c ≢ newline) line
IsText→ne [] h = tt
IsText→ne (c ∷ line) ((a, b), h) = (a, IsText→ne line h)

-- What `match` sees of a line is the line without its newline.
cstr-replace_first :
    (line : List ℕ)
    → All IsText line
    → cstr (replace_first (line ++ (newline ∷ [])) newline 0) ≡ line
unfolding upto replace_first
cstr-replace_first [] h = refl
cstr-replace_first (c ∷ line) ((a, b), h) = ground (arith, cstr-replace_first line h)

module _ {S : Type 0} (keys : List (KeyFinder S)) (capacity : ℕ) where
  -- The parser whose struct to fill is `s`, behind the structs of `front`.
  abbrev at_struct : List S → S → List S → List ℕ → Parser S
  at_struct front s back file = record {
    storage = front ++ (s ∷ back);
    nb_stored = length front;
    capacity = capacity;
    keys = keys;
    file = file;
  }

  set_value-at_struct :
      (front : List S) (s : S) (back : List S) (file : List ℕ) (finder : KeyFinder S) (raw : List ℕ)
      → set_value (at_struct front s back file) finder raw
        ≡ returns (at_struct front (finder.set s (finder.copy raw)) back file)
  unfolding set_value
  set_value-at_struct front s back file finder raw =
      rw (get_elem?-middle front s back, set_value) (rw (set-middle front s back))

  line_step :
      (k : ℕ) (front : List S) (s : S) (back : List S) (line rest : List ℕ)
      → IsLine line
      → parse_line k (at_struct front s back rest) (line ++ (newline ∷ [])) ≡ (
          let (k', s') = take_line keys k s line in
          returns (again k' (at_struct front s' back rest)))
  unfolding parse_line
  line_step k front s back line rest h =
      rw (length-append line (newline ∷ []), cstr-replace_first line h.text)
        (elim (Option-cases (match keys line)) [
          | inl e ↦ rw e (ground (arith, h.some_byte))
          | inr ((finder, raw), e) ↦
              rw (e, set_value-at_struct front s back rest finder raw) (ground (arith, h.some_byte))
        ])

  line_round :
      (k : ℕ) (front : List S) (s : S) (back : List S) (line rest : List ℕ)
      → IsLine line
      → parse_round k (at_struct front s back (line ++ (newline ∷ rest))) ≡ (
          let (k', s') = take_line keys k s line in
          returns (again k' (at_struct front s' back rest)))
  unfolding parse_round
  line_round k front s back line rest h =
      rw (buffer_getline-line line rest (IsText→ne line h.text) h.short)
        (line_step k front s back line rest h)

  -- The parser behind a struct that is complete.
  abbrev past : List S → S → List S → List ℕ → Parser S
  past front s back file = record (at_struct front s back file) { nb_stored = length front + 1 }

  past-at_struct :
      (front : List S) (s t : S) (back : List S) (file : List ℕ)
      → past front s (t ∷ back) file ≡ at_struct (front ++ (s ∷ [])) t back file
  past-at_struct front s t back file =
      rw (append_assoc front (s ∷ []) (t ∷ back), length-append front (s ∷ [])) refl

  blank_round :
      (k : ℕ) (front : List S) (s : S) (back : List S) (rest : List ℕ)
      → parse_round k (at_struct front s back (newline ∷ rest)) ≡ (
          if leb capacity (length front + 1)
          then returns (stop 0 (past front s back rest))
          else returns (again 0 (past front s back rest)))
  unfolding parse_round parse_line buffer_getline
  blank_round k front s back rest = ground arith

  block-Reaches :
      (lines : List (List ℕ)) (k : ℕ) (front : List S) (s : S) (back : List S) (rest : List ℕ)
      (r : ℕ × Parser S)
      → All IsLine lines
      → (let (k', s') = take_lines keys k s lines in
          Reaches k' (at_struct front s' back (newline ∷ rest)) r)
      → Reaches k (at_struct front s back (render_block lines rest)) r
  block-Reaches [] k front s back rest r h run = run
  block-Reaches (line ∷ lines) k front s back rest r (h, hs) run =
      let (k', s') = take_line keys k s line in
      Reaches-again k k' _ (at_struct front s' back (render_block lines rest))
        (line_round k front s back line (render_block lines rest) h)
        (block-Reaches lines k' front s' back rest r hs run)

  blank_stops :
      (k : ℕ) (front : List S) (s : S) (back : List S) (rest : List ℕ)
      → capacity ≡ length front + 1
      → Reaches k
          (at_struct front s back (newline ∷ rest))
          (0, record (at_struct front s back rest) { nb_stored = capacity })
  blank_stops k front s back rest cap =
      Reaches-stop k 0 _ _ (ground (arith, blank_round k front s back rest))

  blank_goes :
      (k : ℕ) (front : List S) (s t : S) (back : List S) (rest : List ℕ) (r : ℕ × Parser S)
      → length front + 1 < capacity
      → Reaches 0 (at_struct (front ++ (s ∷ [])) t back rest) r
      → Reaches k (at_struct front s (t ∷ back) (newline ∷ rest)) r
  blank_goes k front s t back rest r more run =
      Reaches-again k 0 _ (at_struct (front ++ (s ∷ [])) t back rest)
        (blank_round k front s (t ∷ back) rest ∙ ground (arith, past-at_struct front s t back rest))
        run

  -- The last block ends the run by its empty line, whatever stands behind it.
  full-Reaches :
      (blocks : List (List (List ℕ))) (block : List (List ℕ)) (front : List S) (s : S)
      (back : List S) (rest : List ℕ)
      → All IsBlock (block ∷ blocks)
      → length blocks ≡ length back
      → capacity ≡ length front + 1 + length back
      → Reaches 0 (at_struct front s back (render (block ∷ blocks) rest)) (
        0,
        record {
          storage = front ++ fill_all keys (s ∷ back) (block ∷ blocks);
          nb_stored = capacity;
          capacity = capacity;
          keys = keys;
          file = rest;
        },
      )
  full-Reaches [] block front s [] rest (h, _) same cap =
      block-Reaches block 0 front s [] rest _ h (blank_stops _ front _ [] rest (omega arith))
  full-Reaches [] block front s (t ∷ back) rest h same cap = absurd (omega arith)
  full-Reaches (b ∷ blocks) block front s [] rest h same cap = absurd (omega arith)
  full-Reaches (b ∷ blocks) block front s (t ∷ back) rest (h, hs) same cap =
      let s' = fill keys s block in
      let run =
        full-Reaches blocks b (front ++ (s' ∷ [])) t back rest hs (omega arith)
          (rw (length-append front (s' ∷ [])) (omega arith)) in
      block-Reaches block 0 front s (t ∷ back) (render (b ∷ blocks) rest) _ h (
        blank_goes _ front s' t back (render (b ∷ blocks) rest) _ (omega arith)
          (rw (append_assoc front (s' ∷ []) (fill_all keys (t ∷ back) (b ∷ blocks))) at run))

  end_round :
      (front : List S) (s : S) (back : List S)
      → parse_round 0 (at_struct front s back []) ≡ returns (stop 1 (at_struct front s back []))
  unfolding parse_round buffer_getline
  end_round front s back = refl

  short-Reaches :
      (blocks : List (List (List ℕ))) (front : List S) (s : S) (back : List S) (stored : ℕ)
      → All IsBlock blocks
      → length blocks < length back + 1
      → capacity ≡ length front + 1 + length back
      → stored ≡ length front + length blocks
      → Reaches 0 (at_struct front s back (render blocks [])) (
        1,
        record {
          storage = front ++ fill_all keys (s ∷ back) blocks;
          nb_stored = stored;
          capacity = capacity;
          keys = keys;
          file = [];
        },
      )
  short-Reaches [] front s back stored h few room count =
      let same : stored ≡ length front = omega arith in
      rw same (Reaches-stop 0 1 _ _ (end_round front s back))
  short-Reaches (b ∷ blocks) front s [] stored h few room count = absurd (omega arith)
  short-Reaches (b ∷ blocks) front s (t ∷ back) stored (h, hs) few room count =
      let s' = fill keys s b in
      let run =
        short-Reaches blocks (front ++ (s' ∷ [])) t back stored hs (omega arith)
          (rw (length-append front (s' ∷ [])) (omega arith))
          (rw (length-append front (s' ∷ [])) (omega arith)) in
      block-Reaches b 0 front s (t ∷ back) (render blocks []) _ h (
        blank_goes _ front s' t back (render blocks []) _ (omega arith)
          (rw (append_assoc front (s' ∷ []) (fill_all keys (t ∷ back) blocks)) at run))

module _ {S : Type 0} (keys : List (KeyFinder S)) where
  -- A parser as its callers build it: nothing is stored yet.
  abbrev pub fresh : List S → List ℕ → Parser S
  fresh slots file = record {
    storage = slots;
    nb_stored = 0;
    capacity = length slots;
    keys = keys;
    file = file;
  }

  -- On a file with at least as many blocks as the array has structs, `parse` returns 0 right behind
  -- the empty line of the last block that has a struct: that struct and all before it are filled by
  -- the first `nb_keys` matching lines of the block of the same index.
  pub parse-render_full :
      (slots : List S) (blocks : List (List (List ℕ))) (rest : List ℕ)
      → All IsBlock blocks
      → 0 < length slots
      → length blocks ≡ length slots
      → parse (fresh slots (render blocks rest))
        ≡ returns (
          0,
          record (fresh slots rest) {
            storage = fill_all keys slots blocks;
            nb_stored = length slots;
          },
        )
  parse-render_full [] blocks rest h some_slot same = absurd (omega arith)
  parse-render_full (s ∷ back) [] rest h some_slot same = absurd (omega arith)
  parse-render_full (s ∷ back) (b ∷ blocks) rest h some_slot same =
      Reaches→parse _ _ (record { room = omega arith; fits = omega arith })
        (full-Reaches keys (suc (length back)) blocks b [] s back rest h (omega arith)
          (omega arith))

  -- On a file with fewer blocks than the array has structs, `parse` returns 1 at the end of the file:
  -- it has filled one struct for each block, and the other structs are as they were.
  pub parse-render_short :
      (slots : List S) (blocks : List (List (List ℕ)))
      → All IsBlock blocks
      → length blocks < length slots
      → parse (fresh slots (render blocks []))
        ≡ returns (
          1,
          record (fresh slots []) {
            storage = fill_all keys slots blocks;
            nb_stored = length blocks;
          },
        )
  parse-render_short [] blocks h few = absurd (omega arith)
  parse-render_short (s ∷ back) blocks h few =
      Reaches→parse _ _ (record { room = omega arith; fits = omega arith })
        (short-Reaches keys (suc (length back)) blocks [] s back (length blocks) h (omega arith)
          (omega arith) (omega arith))
