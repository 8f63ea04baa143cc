-- ===== src/Sensors/Routes/Moves.antt =====
-- How the search of the route file moves on: an index of the buffer, and less to be looked at.
use mojit_os.Base.{
  ◌==◌, Bool-cases, length, set, take, drop, length-append, length-set, length-take, length-drop,
  is_empty, Ensures, Ensures-bind, Ensures-if, ℕ, suc, ◌+◌, ◌-◌, ◌*◌, ◌≤◌, ◌<◌, ◌≡◌, inl, inr,
  Option, none, some, List, [], ◌∷◌, arith,
}
use mojit_os.Sensors.Reading.{pread_into}
use mojit_os.Sensors.Routes.{
  Reads, Input, strchr, Refill, read_failed, at_end, moved, refill, found_or_refill, strchr_refill,
  found_at, jump, end_of_name, next_name, route_buffer,
}

-- The buffer of 1000 bytes, and an index of it.
abbrev pub IsInput : Input → Type 0
IsInput input = length input.buffer ≡ route_buffer

-- What is still to be looked at: the reads to come, and the buffer from `s` on.
abbrev pub unseen : Input → ℕ → ℕ
unseen input s = route_buffer * length input.reads + (route_buffer - s)

abbrev Below : ℕ → Option ℕ → Type 0
Below n none = Unit
Below n (some k) = k < n

strchr-Below : (c : ℕ) (t : List ℕ) → Ensures (Below (length t)) (strchr c t)
unfolding strchr
strchr-Below c [] = tt
strchr-Below c (b ∷ t) = elim (Bool-cases (b == c)) [
  | inl e ↦ rw e (omega arith)
  | inr e ↦ rw e (
      Ensures-if (Below (suc (length t))) (b == 0) _ _ tt (
        Ensures-bind (Below (suc (length t))) (Below (length t)) (strchr c t) _ (strchr-Below c t)
          shift))
]
  where
    shift :
        (o : Option ℕ)
        → Below (length t) o
        → Below (suc (length t)) (elim o [ none ↦ none | some k ↦ some (suc k) ])
    shift none h = tt
    shift (some k) h = omega (arith, h)

-- After a move from `s`: an index of the buffer, with no more to be looked at.
abbrev Moves : Input → ℕ → Refill × Input → Type 0
Moves input s (read_failed, input') = Unit
Moves input s (at_end, input') = Unit
Moves input s (moved none, input') = Unit
Moves input s (moved (some s'), input') =
    IsInput input' × (s' < route_buffer) × (unseen input' s' ≤ unseen input s)

length-pread_into :
    (buffer bytes : List ℕ)
    → length buffer ≡ route_buffer
    → length (set (pread_into buffer 999 bytes) 999 0) ≡ route_buffer
length-pread_into buffer bytes h =
    let got : List ℕ = take 999 bytes in
    omega (
      arith,
      length-set (pread_into buffer 999 bytes) 999 0,
      length-append got (drop (length got) buffer),
      length-take 999 bytes,
      length-drop (length got) buffer,
      h,
    )

refill-Moves :
    (c s : ℕ) (reads : Reads) (buffer : List ℕ)
    → length buffer ≡ route_buffer
    → Ensures
        (Moves (record { reads = reads; buffer = buffer }) s)
        (refill route_buffer c reads buffer)
unfolding refill
refill-Moves c s [] buffer h = tt
refill-Moves c s (none ∷ reads) buffer h = tt
refill-Moves c s (some bytes ∷ reads) buffer h =
    let buffer' : List ℕ = set (pread_into buffer 999 bytes) 999 0 in
    let start : Input = record { reads = some bytes ∷ reads; buffer = buffer } in
    let same = length-pread_into buffer bytes h in
    Ensures-if (Moves start s) (is_empty (take 999 bytes)) _ _ tt (
      Ensures-bind (Moves start s) (Below (length buffer')) (strchr c buffer') _
        (strchr-Below c buffer') (λ o b. shown o b))
  where
    shown :
        (o : Option ℕ)
        → Below (length (set (pread_into buffer 999 bytes) 999 0)) o
        → Moves
            (record { reads = some bytes ∷ reads; buffer = buffer })
            s
            (moved o, record { reads = reads; buffer = set (pread_into buffer 999 bytes) 999 0 })
    shown none b = tt
    shown (some k) b =
        let same = length-pread_into buffer bytes h in
        (same, omega (arith, same, b), omega (arith, b))

strchr_refill-Moves :
    (c s : ℕ) (input : Input)
    → IsInput input
    → Ensures (Moves input s) (strchr_refill route_buffer s c input)
unfolding strchr_refill found_or_refill
strchr_refill-Moves c s input h =
    Ensures-bind (Moves input s) (Below (length (drop s input.buffer)))
      (strchr c (drop s input.buffer)) _ (strchr-Below c (drop s input.buffer)) found
  where
    found :
        (o : Option ℕ)
        → Below (length (drop s input.buffer)) o
        → Ensures (Moves input s) (found_or_refill route_buffer s c input o)
    found none b = refill-Moves c s input.reads input.buffer h
    found (some k) b =
        let bound = length-drop s input.buffer in (h, omega (arith, bound, b, h), omega arith)

-- The same where a `ret` that is not 1 stops.
abbrev Found : Input → ℕ → Option ℕ × Input → Type 0
Found input s (none, input') = Unit
Found input s (some s', input') =
    IsInput input' × (s' < route_buffer) × (unseen input' s' ≤ unseen input s)

found_at-Found :
    (input : Input) (s : ℕ) (r : Refill × Input)
    → Moves input s r
    → Ensures (Found input s) (found_at r)
unfolding found_at
found_at-Found input s (read_failed, input') h = tt
found_at-Found input s (at_end, input') h = tt
found_at-Found input s (moved none, input') h = tt
found_at-Found input s (moved (some s'), input') h = h

-- A round has less to look at behind it.
abbrev pub Advances : Input → ℕ → Option (ℕ × ℕ) × Input → Type 0
Advances input s (none, input') = Unit
Advances input s (some (start, s'), input') =
    IsInput input' × (s' < route_buffer) × (unseen input' s' < unseen input s)

jump-Found :
    (c s : ℕ) (input : Input)
    → IsInput input
    → Ensures (Found input s) (jump route_buffer s c input)
unfolding jump
jump-Found c s input h =
    Ensures-bind (Found input s) (Moves input s) (strchr_refill route_buffer s c input) found_at
      (strchr_refill-Moves c s input h) (found_at-Found input s)

end_of_name-Advances :
    (input : Input) (s : ℕ) (line : Option ℕ × Input)
    → s < route_buffer
    → Found input s line
    → Ensures (Advances input s) (end_of_name route_buffer line)
unfolding end_of_name
end_of_name-Advances input s (none, input') hs h = tt
end_of_name-Advances input s (some s', input') hs (same, small, less) =
    Ensures-bind (Advances input s) (Found input' (s' + 1))
      (jump route_buffer (s' + 1) b'\t' input') _ (jump-Found b'\t' (s' + 1) input' same) tab
  where
    tab :
        (r : Option ℕ × Input)
        → Found input' (s' + 1) r
        → Advances input s (elim r.0 [ none ↦ none | some e ↦ some (s' + 1, e) ], r.1)
    tab (none, input'') g = tt
    tab (some e, input'') (same', small', less') =
        (same', small', omega (arith, less, less', small))

pub next_name-Advances :
    (s : ℕ) (input : Input)
    → IsInput input
    → s < route_buffer
    → Ensures (Advances input s) (next_name route_buffer s input)
unfolding next_name
next_name-Advances s input h hs =
    Ensures-bind (Advances input s) (Found input s) (jump route_buffer s b'\n' input)
      (end_of_name route_buffer) (jump-Found b'\n' s input h)
      (λ line g. end_of_name-Advances input s line hs g)
