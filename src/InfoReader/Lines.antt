-- ===== src/InfoReader/Lines.antt =====
-- What `buffer_getline` reads, and what `start_with` and `cut` decide.
use mojit_os.Base.{
  length, All, length-append, ℕ, ◌+◌, ◌-◌, ◌<◌, ◌≡◌, ◌≢◌, some, List, [], ◌∷◌, ◌++◌, arith,
}
use mojit_os.InfoReader.{max_page_size, newline, getline_loop, buffer_getline}

-- A line that was read is not empty, and it and the rest make up the stream.
pub getline_loop_takes :
    (n : ℕ) (stream line rest : List ℕ)
    → getline_loop n stream ≡ (some line, rest)
    → (stream ≡ line ++ rest) × (0 < n + length line)
unfolding getline_loop
getline_loop_takes n [] line rest h = ground arith
getline_loop_takes n (ch ∷ stream) [] rest h = ground arith
getline_loop_takes n (ch ∷ stream) (c ∷ line) rest h =
    ground (arith, getline_loop_takes (n + 1) stream line rest)

pub buffer_getline_takes :
    (stream line rest : List ℕ)
    → buffer_getline stream ≡ (some line, rest)
    → (stream ≡ line ++ rest) × (0 < length line)
unfolding buffer_getline
buffer_getline_takes stream line rest h =
    let (whole, some_byte) = getline_loop_takes 0 stream line rest h in (whole, omega arith)

-- So the rest is shorter than the stream.
pub buffer_getline_shrinks :
    (stream line rest : List ℕ)
    → buffer_getline stream ≡ (some line, rest)
    → length rest < length stream
buffer_getline_shrinks stream line rest h =
    let (whole, some_byte) = buffer_getline_takes stream line rest h in
    rw whole (omega (arith, length-append line rest))

-- On a line of at most 4094 bytes behind which a newline stands, `buffer_getline` returns the line
-- with its newline and leaves what follows.
getline_loop-line :
    (line rest : List ℕ) (n : ℕ)
    → All (λ c. c ≢ newline) line
    → n + length line < max_page_size - 1
    → getline_loop n (line ++ (newline ∷ rest)) ≡ (some (line ++ (newline ∷ [])), rest)
unfolding getline_loop
getline_loop-line [] rest n h short = ground arith
getline_loop-line (c ∷ line) rest n h short =
    ground (arith, getline_loop-line line rest (n + 1) h.1)

pub buffer_getline-line :
    (line rest : List ℕ)
    → All (λ c. c ≢ newline) line
    → length line < max_page_size - 1
    → buffer_getline (line ++ (newline ∷ rest)) ≡ (some (line ++ (newline ∷ [])), rest)
unfolding buffer_getline
buffer_getline-line line rest h short = getline_loop-line line rest 0 h (omega arith)
