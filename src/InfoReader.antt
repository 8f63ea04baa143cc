-- ===== src/InfoReader.antt =====
-- lib/info_reader.c: a reader of files made of blocks of `key delimiter value` lines.
-- A block fills one struct of an array; an empty line ends a block.
mod Lines
pub mod Safety
pub mod Description
mod Reaches
pub mod Blocks
mod Tests
use mojit_os.Base.{
  ltb, leb, ◌==◌, if◌then◌else◌, length, get_elem?, set, take, drop, Outcome, returns, exits,
  faults, ◌>>=◌, ℕ, zero, suc, ◌+◌, ◌-◌, Bool, false, not, ◌&&◌, Option, none, some, List, [], ◌∷◌,
}
use mojit_os.Base.Text.{cstr, starts, bytes_eq}

-- Strings.

-- `bool start_with(const char *prefix, const char *string)`; `none` is NULL.
unfoldable pub start_with : Option (List ℕ) → Option (List ℕ) → Bool
start_with none string = false
start_with (some prefix) none = false
start_with (some prefix) (some string) =
    if ltb (length string) (length prefix)
    then false
    else bytes_eq prefix (take (length prefix) string)

-- `strstr`: what stands in front of the first `delimiter`, and what stands behind it.
unfoldable pub cut : List ℕ → List ℕ → Option (List ℕ × List ℕ)
cut delimiter [] = if starts delimiter [] then some ([], []) else none
cut delimiter (c ∷ s) =
    if starts delimiter (c ∷ s)
    then some ([], drop (length delimiter) (c ∷ s))
    else elim (cut delimiter s) [ none ↦ none | some (key, value) ↦ some (c ∷ key, value) ]

-- The key and the value, which are both NULL where the delimiter is missing.
unfoldable pub split_on_delimiter : List ℕ → List ℕ → Option (List ℕ × List ℕ)
unfolding cut
split_on_delimiter string delimiter = cut delimiter string

-- The loop ends at the terminating NUL.
unfoldable pub replace_first : List ℕ → ℕ → ℕ → List ℕ
replace_first [] from to = []
replace_first (c ∷ s) from to =
    if c == 0 then c ∷ s else if c == from then to ∷ s else c ∷ replace_first s from to

-- Lines.

abbrev pub max_page_size : ℕ
max_page_size = 4096

abbrev pub newline : ℕ
newline = 10

-- The loop of `buffer_getline` after `num_chars_read` bytes: the bytes that it still puts into the
-- buffer, or `none` for -1, and what it leaves unread.
unfoldable pub getline_loop : ℕ → List ℕ → Option (List ℕ) × List ℕ
getline_loop num_chars_read [] = (if num_chars_read == 0 then none else some [], [])
getline_loop num_chars_read (ch ∷ stream) =
    let (more, rest) = getline_loop (num_chars_read + 1) stream in
    if num_chars_read == max_page_size - 1
    then (none, stream)
    else if ch == newline
    then (some (ch ∷ []), stream)
    else (elim more [ none ↦ none | some line ↦ some (ch ∷ line) ], rest)

-- On a stream that is open.
unfoldable pub buffer_getline : List ℕ → Option (List ℕ) × List ℕ
unfolding getline_loop
buffer_getline stream = getline_loop 0 stream

-- Keys. A `GenericPointer` is a `size_t`, a number; `S` is the struct that a block fills.

pub record KeyFinder (S : Type 0) : Type 0 where
  pub key : List ℕ
  pub delimiter : List ℕ
  pub copy : List ℕ → ℕ
  pub set : S → ℕ → S

-- `storage` is the array of structs, `file` what is still unread, and `nb_keys` the length of `keys`.
pub record Parser (S : Type 0) : Type 0 where
  pub storage : List S
  pub nb_stored : ℕ
  pub capacity : ℕ
  pub keys : List (KeyFinder S)
  pub file : List ℕ

-- What one round of the loop of `parse` does: return, or go on with a count of assigned keys.
pub data Round (S : Type 0) : Type 0 where
  stop : ℕ → Parser S → Round S
  again : ℕ → Parser S → Round S

module _ {S : Type 0} where
  -- The first finder whose key the line starts with decides; without its delimiter nothing matches.
  unfoldable pub match : List (KeyFinder S) → List ℕ → Option (KeyFinder S × List ℕ)
  unfolding start_with split_on_delimiter
  match [] line = none
  match (finder ∷ keys) line =
      if start_with (some finder.key) (some line)
      then elim (split_on_delimiter line finder.delimiter) [
        | none ↦ none
        | some (key, value) ↦ some (finder, value)
      ]
      else match keys line

  -- The struct at index `nb_stored` is written; outside the array that is undefined.
  unfoldable pub set_value : Parser S → KeyFinder S → List ℕ → Outcome (Parser S)
  set_value parser key_finder raw_value =
      let value = key_finder.copy raw_value in
      elim (get_elem? parser.storage parser.nb_stored) [
        | none ↦ faults
        | some struct ↦ returns (record parser {
          storage = set parser.storage parser.nb_stored (key_finder.set struct value);
        })
      ]

  unfoldable pub move_to_next : Parser S → Bool × Parser S
  move_to_next parser =
      let nb_stored = parser.nb_stored + 1 in
      (not (leb parser.capacity nb_stored), record parser { nb_stored = nb_stored })

  -- The body of the loop for the line that was read.
  unfoldable pub parse_line : ℕ → Parser S → List ℕ → Outcome (Round S)
  unfolding move_to_next
  parse_line key_assigned parser line =
      if key_assigned == length parser.keys && ltb 1 (length line)
      then returns (again key_assigned parser)
      else if length line == 1
      then (let (more, next) = move_to_next parser in
          if more then returns (again 0 next) else returns (stop 0 next))
      else elim (match parser.keys (cstr (replace_first line newline 0))) [
        | none ↦ returns (again key_assigned parser)
        | some (key_finder, raw_value) ↦ do
          parser' ← set_value parser key_finder raw_value
          returns (again (key_assigned + 1) parser')
      ]

  -- One round of `while ((read = buffer_getline(&line, parser->file)) != -1)`, or the end of `parse`.
  unfoldable pub after_getline : ℕ → Parser S → Option (List ℕ) × List ℕ → Outcome (Round S)
  after_getline key_assigned parser (none, rest) =
      let nb_stored = if ltb 0 key_assigned then parser.nb_stored + 1 else parser.nb_stored in
      returns (stop 1 (record parser { nb_stored = nb_stored; file = rest }))
  after_getline key_assigned parser (some line, rest) =
      parse_line key_assigned (record parser { file = rest }) line

  unfoldable pub parse_round : ℕ → Parser S → Outcome (Round S)
  unfolding after_getline
  parse_round key_assigned parser = after_getline key_assigned parser (buffer_getline parser.file)

  unfoldable pub after_round :
      (ℕ → Parser S → Outcome (ℕ × Parser S)) → Outcome (Round S) → Outcome (ℕ × Parser S)
  after_round loop (returns (stop code p)) = returns (code, p)
  after_round loop (returns (again k p)) = loop k p
  after_round loop (exits c) = exits c
  after_round loop faults = faults

  -- The loop on fuel. `faults` without fuel is not the source's: `parse_lem` excludes it.
  unfoldable pub parse_loop : ℕ → ℕ → Parser S → Outcome (ℕ × Parser S)
  unfolding after_round
  parse_loop zero key_assigned parser = faults
  parse_loop (suc fuel) key_assigned parser =
      after_round (parse_loop fuel) (parse_round key_assigned parser)

  -- Every round but the last reads a byte.
  unfoldable pub parse : Parser S → Outcome (ℕ × Parser S)
  unfolding parse_loop
  parse parser = parse_loop (length parser.file + 1) 0 parser
