-- ===== src/InfoReader/Tests.antt =====
-- Runs of lib/info_reader.c, and its theorems at concrete inputs.
use mojit_os.Base.{returns, ℕ, ◌≡◌, refl, true, some, List, [], ◌∷◌, arith}
use mojit_os.Base.Text.{codes, upto, atoi, starts, bytes_eq}
use mojit_os.InfoReader.{
  start_with, replace_first, buffer_getline, KeyFinder, match, set_value, parse_line, parse_round,
  parse,
}
use mojit_os.InfoReader.Blocks.{fresh, parse-render_full, parse-render_short}
use mojit_os.InfoReader.Description.{IsBlock, render, fill_all}
use mojit_os.InfoReader.Safety.{Ends, parse_lem}

-- A struct of two numbers, as tests/info_reader.c has them.
record Pair : Type 0 where
  left : ℕ
  right : ℕ

abbrev keys : List (KeyFinder Pair)
keys =
    record {
      key = codes "left";
      delimiter = codes ": ";
      copy = atoi;
      set = λ s v. record s { left = v };
    }
    ∷ record {
      key = codes "right";
      delimiter = codes ": ";
      copy = atoi;
      set = λ s v. record s { right = v };
    }
    ∷ []

abbrev blank : Pair
blank = record { left = 0; right = 0 }

abbrev block : List (List ℕ)
block = codes "left\t: 3" ∷ codes "other: 9" ∷ codes "right\t: 4" ∷ codes "left: 8" ∷ []

test_parse :
    parse (fresh keys (blank ∷ []) (render (block ∷ []) []))
    ≡ returns (0, record (fresh keys (record { left = 3; right = 4 } ∷ []) []) { nb_stored = 1 })
unfolding parse parse_round parse_line buffer_getline match set_value replace_first upto starts atoi
    bytes_eq
test_parse = refl

test_start_with : start_with (some (codes "ab")) (some (codes "abc")) ≡ true
unfolding start_with bytes_eq
test_start_with = refl

parse_lem_example :
    Ends
      (fresh keys (blank ∷ []) (codes "left: 1"))
      (parse (fresh keys (blank ∷ []) (codes "left: 1")))
parse_lem_example =
    parse_lem (fresh keys (blank ∷ []) (codes "left: 1"))
      (record { room = omega arith; fits = omega arith })

block-IsBlock : IsBlock block
block-IsBlock = omega arith

parse-render_full_example :
    parse (fresh keys (blank ∷ []) (render (block ∷ []) (codes "rest")))
    ≡ returns (
      0,
      record (fresh keys (blank ∷ []) (codes "rest")) {
        storage = fill_all keys (blank ∷ []) (block ∷ []);
        nb_stored = 1;
      },
    )
parse-render_full_example =
    parse-render_full keys (blank ∷ []) (block ∷ []) (codes "rest") (block-IsBlock, tt)
      (omega arith) (omega arith)

parse-render_short_example :
    parse (fresh keys (blank ∷ blank ∷ []) (render (block ∷ []) []))
    ≡ returns (
      1,
      record (fresh keys (blank ∷ blank ∷ []) []) {
        storage = fill_all keys (blank ∷ blank ∷ []) (block ∷ []);
        nb_stored = 1;
      },
    )
parse-render_short_example =
    parse-render_short keys (blank ∷ blank ∷ []) (block ∷ []) (block-IsBlock, tt) (omega arith)
