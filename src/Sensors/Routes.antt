-- ===== src/Sensors/Routes.antt =====
-- src/network.c: the devices that init_network finds in /proc/net/route, with strchr_refill.
pub mod Scan
mod Moves
pub mod Ending
pub mod Rows
pub mod Distinct
pub mod WholeFile
mod Tests
use mojit_os.Base.{
  leb, ◌==◌, if◌then◌else◌, length, set, take, drop, replicate, is_empty, Outcome, returns, exits,
  faults, ◌>>=◌, ℕ, zero, suc, ◌+◌, ◌-◌, ◌*◌, Bool, true, false, ◌||◌, Option, none, some, List, [],
  ◌∷◌, ◌++◌,
}
use mojit_os.Base.Text.{u64_mod, upto, cstr, bytes_eq}
use mojit_os.Sensors.Reading.{pread_into}
use Prim.Native.Nat.{min}

-- What the successive `read`s of the file give; `none` is an error. Behind the last, the file has ended.
abbrev pub Reads : Type 0
Reads = List (Option (List ℕ))

pub record Input : Type 0 where
  pub reads : Reads
  pub buffer : List ℕ

-- `strchr` in a buffer from a pointer on: how far the first `c` is. A string that no NUL ends leaves the
-- buffer.
unfoldable pub strchr : ℕ → List ℕ → Outcome (Option ℕ)
strchr c [] = faults
strchr c (b ∷ s) =
    if b == c
    then returns (some 0)
    else if b == 0
    then returns none
    else (do o ← strchr c s; returns (elim o [ none ↦ none | some k ↦ some (suc k) ]))

-- The return value of `strchr_refill` -1, 0 or 1, and with 1 the new `*s`, which may be NULL.
pub data Refill : Type 0 where
  read_failed : Refill
  at_end : Refill
  moved : Option ℕ → Refill

-- `read` into the first `len - 1` bytes, and the search in what is there then.
unfoldable pub refill : ℕ → ℕ → Reads → List ℕ → Outcome (Refill × Input)
unfolding strchr
refill len c [] buffer = returns (at_end, record { reads = []; buffer = set buffer (len - 1) 0 })
refill len c (none ∷ reads) buffer =
    returns (read_failed, record { reads = reads; buffer = buffer })
refill len c (some bytes ∷ reads) buffer =
    let buffer' = set (pread_into buffer (len - 1) bytes) (len - 1) 0 in
    if is_empty (take (len - 1) bytes)
    then returns (at_end, record { reads = reads; buffer = buffer' })
    else (do o ← strchr c buffer'; returns (moved o, record { reads = reads; buffer = buffer' }))

unfoldable pub found_or_refill : ℕ → ℕ → ℕ → Input → Option ℕ → Outcome (Refill × Input)
unfolding refill
found_or_refill len s c input (some k) = returns (moved (some (s + k)), input)
found_or_refill len s c input none = refill len c input.reads input.buffer

-- `*s` is the index `s` of the buffer.
unfoldable pub strchr_refill : ℕ → ℕ → ℕ → Input → Outcome (Refill × Input)
unfolding found_or_refill strchr
strchr_refill len s c input = do o ← strchr c (drop s input.buffer); found_or_refill len s c input o

-- `ret != 1`, or the new `s`; what the source does with a NULL is undefined.
unfoldable pub found_at : Refill × Input → Outcome (Option ℕ × Input)
found_at (read_failed, input) = returns (none, input)
found_at (at_end, input) = returns (none, input)
found_at (moved none, input) = faults
found_at (moved (some s), input) = returns (some s, input)

-- The call, and the test of `ret` behind it.
unfoldable pub jump : ℕ → ℕ → ℕ → Input → Outcome (Option ℕ × Input)
unfolding strchr_refill found_at
jump len s c input = do refilled ← strchr_refill len s c input; found_at refilled

unfoldable pub end_of_name : ℕ → Option ℕ × Input → Outcome (Option (ℕ × ℕ) × Input)
unfolding jump
end_of_name len (none, input) = returns (none, input)
end_of_name len (some s, input) = do
  (tab, input') ← jump len (s + 1) b'\t' input
  returns (elim tab [ none ↦ none | some s' ↦ some (s + 1, s') ], input')

-- To the next line and to the end of its device name: `start_of_dev` and `s`, or `ret != 1`.
unfoldable pub next_name : ℕ → ℕ → Input → Outcome (Option (ℕ × ℕ) × Input)
unfolding end_of_name jump
next_name len s input = do line ← jump len s b'\n' input; end_of_name len line

-- `(size_t)(s - start_of_dev)`, which wraps when a refill has moved `s` in front of `start_of_dev`.
abbrev pub name_length : ℕ → ℕ → ℕ
name_length start s = if leb start s then s - start else u64_mod - (start - s)

-- `strncmp(t, dev, n) == 0`, where `t` is the buffer from a pointer on and `dev` a string.
unfoldable pub same_start : ℕ → List ℕ → List ℕ → Bool
unfolding bytes_eq upto
same_start n t dev = bytes_eq (take n (cstr t)) (take n dev)

unfoldable pub known_device : ℕ → List ℕ → List (List ℕ) → Bool
unfolding same_start
known_device n t [] = false
known_device n t (dev ∷ devs) = same_start n t dev || known_device n t devs

-- `memcpy` of 127 bytes at most into an array of zeros, as the string that stands there then.
unfoldable pub saved_name : List ℕ → ℕ → ℕ → Outcome (List ℕ)
unfolding upto
saved_name buffer start s =
    let n = min 127 (name_length start s) in
    if leb (start + n) (length buffer) then returns (cstr (take n (drop start buffer))) else faults

abbrev pub nb_max_dev : ℕ
nb_max_dev = 8

-- The part of the loop's body behind the name: whether the loop goes on, and the devices.
unfoldable pub add_device : List ℕ → ℕ → ℕ → List (List ℕ) → Outcome (Bool × List (List ℕ))
unfolding known_device saved_name
add_device buffer start s devs =
    if known_device (name_length start s) (drop start buffer) devs
    then returns (true, devs)
    else if leb nb_max_dev (length devs)
    then returns (false, devs)
    else (do name ← saved_name buffer start s; returns (true, devs ++ (name ∷ [])))

-- How a run on fuel ends; `none` is out of fuel.
abbrev pub Run : Type 0 → Type 0
Run A = Option (Outcome A)

unfoldable pub after_device :
    (List (List ℕ) → Run (List (List ℕ))) → Outcome (Bool × List (List ℕ)) → Run (List (List ℕ))
after_device loop (returns (true, devs)) = loop devs
after_device loop (returns (false, devs)) = some (returns devs)
after_device loop (exits code) = some (exits code)
after_device loop faults = some faults

unfoldable pub after_name :
    (ℕ → Input → List (List ℕ) → Run (List (List ℕ)))
    → List (List ℕ)
    → Outcome (Option (ℕ × ℕ) × Input)
    → Run (List (List ℕ))
unfolding after_device add_device
after_name loop devs (returns (none, input)) = some (returns devs)
after_name loop devs (returns (some (start, s), input)) =
    after_device (loop s input) (add_device input.buffer start s devs)
after_name loop devs (exits code) = some (exits code)
after_name loop devs faults = some faults

-- The `for (;;)` over the lines, on fuel.
unfoldable pub route_loop : ℕ → ℕ → ℕ → Input → List (List ℕ) → Run (List (List ℕ))
unfolding after_name next_name
route_loop zero len s input devs = none
route_loop (suc fuel) len s input devs =
    after_name (λ s'. λ input'. λ devs'. route_loop fuel len s' input' devs') devs
      (next_name len s input)

unfoldable pub first_device : ℕ → ℕ → Outcome (Option (ℕ × ℕ) × Input) → Run (List (List ℕ))
unfolding saved_name after_device route_loop
first_device fuel len (returns (none, input)) = some (exits 1)
first_device fuel len (returns (some (start, s), input)) =
    after_device (route_loop fuel len s input)
      (do name ← saved_name input.buffer start s; returns (true, name ∷ []))
first_device fuel len (exits code) = some (exits code)
first_device fuel len faults = some faults

abbrev pub route_buffer : ℕ
route_buffer = 1000

-- Each round takes the next byte of the buffer or the next `read` at least.
abbrev pub enough : Reads → ℕ
enough reads = route_buffer * (length reads + 1) + 1

-- From the `open` on, with an empty buffer, on fuel.
unfoldable pub route_search : ℕ → Reads → Run (List (List ℕ))
unfolding first_device next_name
route_search fuel reads =
    first_device fuel route_buffer
      (next_name route_buffer 0 (record { reads = reads; buffer = replicate route_buffer 0 }))

abbrev pub settle : Run (List (List ℕ)) → Outcome (List (List ℕ))
settle none = faults
settle (some result) = result

-- The devices of the route file. Fewer than two lines end the process. `faults` for a lack of fuel is
-- not the source's: `read_routes-Ended` excludes it.
unfoldable pub read_routes : Reads → Outcome (List (List ℕ))
unfolding route_search
read_routes reads = settle (route_search (enough reads) reads)
