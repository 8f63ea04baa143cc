-- ===== src/Sensors/Routes/Rows.antt =====
-- What src/network.c makes of a route file that is a header line and a row for each route.
use mojit_os.Base.{
  leb, ◌==◌, if◌then◌else◌, Bool-cases, length, take, drop, All, length-append, length-drop,
  Outcome, returns, ◌>>=◌, ℕ, zero, suc, ◌+◌, ◌≤◌, ◌<◌, ◌≡◌, refl, sym, ap, ◌∙◌, inl, inr, Bool,
  true, false, ◌&&◌, ◌||◌, some, List, [], ◌∷◌, ◌++◌, append-nil, arith,
}
use mojit_os.Base.Text.{upto, cstr, starts, bytes_eq}
use mojit_os.Sensors.Routes.{
  Input, name_length, same_start, known_device, saved_name, nb_max_dev, add_device, after_device,
  after_name, route_loop,
}
use mojit_os.Sensors.Routes.Scan.{
  Passes, drop-past, drop-at, next_name-Passes, next_name_last, upto-Passes, take-append,
}
use Prim.Native.Nat.{min}

pub record Row : Type 0 where
  pub name : List ℕ
  -- behind the tab
  pub rest : List ℕ

-- The name has no tab, no newline and no NUL, and fits its array; the rest has no newline and no NUL.
pub record IsRow (r : Row) : Type 0 where
  pub name_ok : Passes b'\t' r.name
  pub rest_ok : Passes b'\n' r.rest
  pub short : length r.name ≤ 127

abbrev pub rows_text : List Row → List ℕ → List ℕ
rows_text [] tail = tail
rows_text (r ∷ rows) tail = r.name ++ (b'\t' ∷ (r.rest ++ (b'\n' ∷ rows_text rows tail)))

abbrev pub row_names : List Row → List (List ℕ)
row_names [] = []
row_names (r ∷ rows) = r.name ∷ row_names rows

-- A device whose name begins with this one.
abbrev pub begun : List ℕ → List (List ℕ) → Bool
begun name [] = false
begun name (dev ∷ devs) = starts name dev || begun name devs

abbrev pub keep_new : List (List ℕ) → List (List ℕ) → List (List ℕ)
keep_new devs [] = devs
keep_new devs (name ∷ names) =
    let same = keep_new devs names in
    let more = keep_new (devs ++ (name ∷ [])) names in
    if begun name devs then same else if leb nb_max_dev (length devs) then devs else more

bytes_eq-take : (name dev : List ℕ) → bytes_eq name (take (length name) dev) ≡ starts name dev
unfolding bytes_eq starts
bytes_eq-take [] dev = refl
bytes_eq-take (c ∷ name) [] = refl
bytes_eq-take (c ∷ name) (b ∷ dev) = ap (λ (x : Bool). (c == b) && x) (bytes_eq-take name dev)

name_text : (name t : List ℕ) → Passes b'\t' name → take (length name) (cstr (name ++ t)) ≡ name
name_text name t h =
    ap (take (length name)) (upto-Passes b'\t' name t h) ∙ take-append name (cstr t)

known_device-begun :
    (name t : List ℕ) (devs : List (List ℕ))
    → Passes b'\t' name
    → known_device (length name) (name ++ t) devs ≡ begun name devs
unfolding known_device same_start
known_device-begun name t [] h = refl
known_device-begun name t (dev ∷ devs) h =
    rw (name_text name t h, bytes_eq-take name dev, known_device-begun name t devs h) refl

name_length-at : (start n : ℕ) → name_length start (start + n) ≡ n
name_length-at start n = ground arith

upto-all : (c : ℕ) (a : List ℕ) → Passes c a → cstr a ≡ a
upto-all c a h = sym (ap cstr (append-nil a)) ∙ upto-Passes c a [] h ∙ unfold upto in append-nil a

pub saved_name-Row :
    (buffer : List ℕ) (start : ℕ) (r : Row) (t : List ℕ)
    → drop start buffer ≡ r.name ++ (b'\t' ∷ t)
    → IsRow r
    → saved_name buffer start (start + length r.name) ≡ returns r.name
unfolding saved_name
saved_name-Row buffer start r t e h =
    let n : ℕ = length r.name in
    let all : min 127 n ≡ n = omega (arith, h.short) in
    let room : leb (start + n) (length buffer) ≡ true =
      ground (arith, length-drop start buffer, ap length e, length-append r.name (b'\t' ∷ t)) in
    let text : cstr (take n (drop start buffer)) ≡ r.name =
      ap (λ l. cstr (take n l)) e
      ∙ ap cstr (take-append r.name (b'\t' ∷ t))
      ∙ upto-all b'\t' r.name h.name_ok in
    rw (name_length-at start n, all, room) (ap returns text)

known_at :
    (buffer : List ℕ) (start : ℕ) (r : Row) (t : List ℕ) (devs : List (List ℕ))
    → drop start buffer ≡ r.name ++ (b'\t' ∷ t)
    → IsRow r
    → known_device (name_length start (start + length r.name)) (drop start buffer) devs
      ≡ begun r.name devs
known_at buffer start r t devs e h =
    rw (name_length-at start (length r.name), e)
      (known_device-begun r.name (b'\t' ∷ t) devs h.name_ok)

add_device-Row :
    (buffer : List ℕ) (start : ℕ) (r : Row) (t : List ℕ) (devs : List (List ℕ))
    → drop start buffer ≡ r.name ++ (b'\t' ∷ t)
    → IsRow r
    → add_device buffer start (start + length r.name) devs ≡ (
        if begun r.name devs
        then returns (true, devs)
        else if leb nb_max_dev (length devs)
        then returns (false, devs)
        else returns (true, devs ++ (r.name ∷ [])))
unfolding add_device
add_device-Row buffer start r t devs e h =
    let answer : Bool → Outcome (List ℕ) → Outcome (Bool × List (List ℕ)) = λ known name.
      if known
      then returns (true, devs)
      else if leb nb_max_dev (length devs)
      then returns (false, devs)
      else (name >>= λ (n : List ℕ). returns (true, devs ++ (n ∷ []))) in
    ap (λ (known : Bool). answer known (saved_name buffer start (start + length r.name)))
      (known_at buffer start r t devs e h)
    ∙ ap (answer (begun r.name devs)) (saved_name-Row buffer start r t e h)

pub route_loop-rows :
    (rows : List Row) (fuel len s : ℕ) (buffer a z : List ℕ) (devs : List (List ℕ))
    → length rows < fuel
    → drop s buffer ≡ a ++ (b'\n' ∷ rows_text rows (0 ∷ z))
    → Passes b'\n' a
    → All IsRow rows
    → route_loop fuel len s (record { reads = []; buffer = buffer }) devs
      ≡ some (returns (keep_new devs (row_names rows)))
unfolding route_loop
route_loop-rows rows zero len s buffer a z devs f e ha h = absurd (omega arith)
route_loop-rows [] (suc fuel) len s buffer a z devs f e ha h =
    let (input, last) = next_name_last len s buffer a z e ha in rw (last, after_name) refl
route_loop-rows (r ∷ rows) (suc fuel) len s buffer a z devs f e ha (hr, h) =
    let input : Input = record { reads = []; buffer = buffer } in
    let t : List ℕ = r.rest ++ (b'\n' ∷ rows_text rows (0 ∷ z)) in
    let start : ℕ = s + length a + 1 in
    let named = next_name-Passes len s input a r.name t e ha hr.name_ok in
    let behind = drop-past s b'\n' buffer a (r.name ++ (b'\t' ∷ t)) e in
    let on = λ (devs' : List (List ℕ)).
      route_loop-rows rows fuel len (start + length r.name) buffer (b'\t' ∷ r.rest) z devs'
        (omega (arith, f)) (drop-at start buffer r.name (b'\t' ∷ t) behind)
        ((refl, refl), hr.rest_ok) h in
    rw (named, after_name)
      (rw (add_device-Row buffer start r t devs behind hr) (elim (Bool-cases (begun r.name devs)) [
        | inl known ↦ rw (known, after_device) (on devs)
        | inr new ↦ rw new (elim (Bool-cases (leb nb_max_dev (length devs))) [
          | inl full ↦ rw (full, after_device) refl
          | inr room ↦ rw (room, after_device) (on (devs ++ (r.name ∷ [])))
        ])
      ]))
