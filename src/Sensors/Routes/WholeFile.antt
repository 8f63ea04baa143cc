-- ===== src/Sensors/Routes/WholeFile.antt =====
-- What src/network.c finds in a route file that one `read` takes whole.
use mojit_os.Base.{
  ◌==◌, length, set, take, drop, replicate, All, length-append, is_empty, returns, ◌>>=◌, ℕ, zero,
  suc, ◌+◌, ◌-◌, ◌≤◌, ◌<◌, ◌≡◌, refl, ap, ◌∙◌, true, false, none, some, List, [], ◌∷◌, ◌++◌,
  append_assoc, zero-add, arith,
}
use mojit_os.Base.Text.{starts}
use mojit_os.Sensors.Reading.{pread_into}
use mojit_os.Sensors.Routes.{
  Input, strchr, refill, found_or_refill, strchr_refill, found_at, jump, end_of_name, next_name,
  nb_max_dev, after_device, first_device, route_buffer, enough, settle, read_routes,
}
use mojit_os.Sensors.Routes.Distinct.{distinct, Clear, Clear-cons, keep_new-distinct}
use mojit_os.Sensors.Routes.Rows.{
  Row, IsRow, rows_text, row_names, keep_new, saved_name-Row, route_loop-rows,
}
use mojit_os.Sensors.Routes.Scan.{
  Passes, drop-drop, drop-append, drop-at, strchr-Passes, jump-Passes,
}

set-append : (a t : List ℕ) (k v : ℕ) → set (a ++ t) (length a + k) v ≡ a ++ set t k v
set-append [] t k v = rw zero-add refl
set-append (x ∷ a) t k v =
    let next : suc (length a) + k ≡ suc (length a + k) = omega arith in
    rw next (ap (λ l. x ∷ l) (set-append a t k v))

zeros_left : (n m : ℕ) → drop n (replicate {A = ℕ} (n + m) 0) ≡ replicate m 0
zeros_left zero m = rw (zero-add m) refl
zeros_left (suc n) m = let next : suc n + m ≡ suc (n + m) = omega arith in rw next (zeros_left n m)

take_short : (n : ℕ) (xs : List ℕ) → length xs ≤ n → take n xs ≡ xs
take_short zero [] h = refl
take_short zero (x ∷ xs) h = absurd (omega arith)
take_short (suc n) [] h = refl
take_short (suc n) (x ∷ xs) h = ap (λ l. x ∷ l) (take_short n xs (omega arith))

set-zeros : (k m : ℕ) → (z : List ℕ) × (set (replicate {A = ℕ} (suc m) 0) k 0 ≡ 0 ∷ z)
set-zeros zero m = (replicate m 0, refl)
set-zeros (suc k) m = (set (replicate m 0) k 0, refl)

-- The buffer after the `read` of the whole file: the file, and a NUL behind it.
read_whole :
    (text : List ℕ)
    → length text ≤ 999
    → (z : List ℕ) × (set (pread_into (replicate route_buffer 0) 999 text) 999 0 ≡ text ++ (0 ∷ z))
read_whole text fits =
    let k : ℕ = 999 - length text in
    let (z, e) = set-zeros k k in
    let zeros : List ℕ = replicate route_buffer 0 in
    let size : route_buffer ≡ length text + suc k = omega (arith, fits) in
    let end : 999 ≡ length text + k = omega (arith, fits) in
    let tail : drop (length text) zeros ≡ replicate (suc k) 0 =
      ap (λ n. drop (length text) (replicate n 0)) size ∙ zeros_left (length text) (suc k) in
    let seen : pread_into zeros 999 text ≡ text ++ replicate (suc k) 0 =
      ap (λ l. l ++ drop (length l) zeros) (take_short 999 text fits) ∙ ap (λ l. text ++ l) tail in
    (
      z,
      ap (λ l. set l 999 0) seen
          ∙ ap (λ n. set (text ++ replicate (suc k) 0) n 0) end
          ∙ set-append text (replicate (suc k) 0) k 0
          ∙ ap (λ l. text ++ l) e,
    )

rows_text-append :
    (rows : List Row) (s t : List ℕ) → rows_text rows s ++ t ≡ rows_text rows (s ++ t)
rows_text-append [] s t = refl
rows_text-append (r ∷ rows) s t =
    rw
      (
        append_assoc r.name (b'\t' ∷ (r.rest ++ (b'\n' ∷ rows_text rows s))) t,
        append_assoc r.rest (b'\n' ∷ rows_text rows s) t,
        rows_text-append rows s t,
      )
      refl

rows_text-long : (rows : List Row) (s : List ℕ) → length rows ≤ length (rows_text rows s)
rows_text-long [] s = omega arith
rows_text-long (r ∷ rows) s =
    let inner : List ℕ = r.rest ++ (b'\n' ∷ rows_text rows s) in
    omega (
      arith,
      rows_text-long rows s,
      length-append r.name (b'\t' ∷ inner),
      length-append r.rest (b'\n' ∷ rows_text rows s),
    )

-- The first jump, out of the empty buffer.
jump_first :
    (c : ℕ) (text : List ℕ) (buffer a t : List ℕ)
    → (0 == c) ≡ false
    → is_empty (take 999 text) ≡ false
    → set (pread_into (replicate route_buffer 0) 999 text) 999 0 ≡ buffer
    → buffer ≡ a ++ (c ∷ t)
    → Passes c a
    → jump route_buffer 0 c (record { reads = some text ∷ []; buffer = replicate route_buffer 0 })
      ≡ returns (some (length a), record { reads = []; buffer = buffer })
unfolding jump strchr_refill found_or_refill found_at refill
jump_first c text buffer a t other some_byte shown e ha =
    let empty : strchr c (replicate route_buffer 0) ≡ returns none =
      unfold strchr in rw other refl in
    let found = ap (strchr c) e ∙ strchr-Passes c a t ha in rw (empty, shown, some_byte, found) refl

-- A header line and the rows, in one text.
abbrev pub route_text : List ℕ → List Row → List ℕ
route_text header rows = header ++ (b'\n' ∷ rows_text rows [])

first_device-rows :
    (fuel : ℕ) (r : Row) (rows : List Row) (header buffer z : List ℕ)
    → length rows < fuel
    → buffer ≡ header ++ (b'\n' ∷ rows_text (r ∷ rows) (0 ∷ z))
    → IsRow r
    → All IsRow rows
    → first_device fuel route_buffer
        (end_of_name route_buffer (some (length header), record { reads = []; buffer = buffer }))
      ≡ some (returns (keep_new (r.name ∷ []) (row_names rows)))
unfolding first_device end_of_name
first_device-rows fuel r rows header buffer z f e hr h =
    let input : Input = record { reads = []; buffer = buffer } in
    let t : List ℕ = r.rest ++ (b'\n' ∷ rows_text rows (0 ∷ z)) in
    let start : ℕ = length header + 1 in
    let behind =
      drop-drop start (length header) 1 buffer refl
      ∙ ap (drop 1)
          (ap (drop (length header)) e ∙ drop-append header (b'\n' ∷ (r.name ++ (b'\t' ∷ t)))) in
    let tab = jump-Passes route_buffer start b'\t' input r.name t behind hr.name_ok in
    let on =
      route_loop-rows rows fuel route_buffer (start + length r.name) buffer (b'\t' ∷ r.rest) z
        (r.name ∷ []) f (drop-at start buffer r.name (b'\t' ∷ t) behind) ((refl, refl), hr.rest_ok)
        h in
    rw (tab, first_device) (rw (saved_name-Row buffer start r t behind hr, after_device) on)

-- For a route file that is a header line and at least one row, of 999 bytes at most, given by one
-- `read`, where rows have names of at most 127 bytes and no name is a proper beginning of another's,
-- the devices that `init_network` finds are the first eight distinct names, in the order of their
-- first rows.
pub read_routes-distinct :
    (header : List ℕ) (r : Row) (rows : List Row)
    → Passes b'\n' header
    → IsRow r
    → All IsRow rows
    → Clear (row_names (r ∷ rows)) (row_names (r ∷ rows))
    → length (route_text header (r ∷ rows)) ≤ 999
    → read_routes (some (route_text header (r ∷ rows)) ∷ [])
      ≡ returns (take nb_max_dev (distinct [] (row_names (r ∷ rows))))
unfolding read_routes next_name
read_routes-distinct header r rows ha hr h (apart, others) fits =
    let text : List ℕ = route_text header (r ∷ rows) in
    let (z, shown) = read_whole text fits in
    let buffer : List ℕ = text ++ (0 ∷ z) in
    let whole : buffer ≡ header ++ (b'\n' ∷ rows_text (r ∷ rows) (0 ∷ z)) =
      append_assoc header (b'\n' ∷ rows_text (r ∷ rows) []) (0 ∷ z)
      ∙ ap (λ l. header ++ (b'\n' ∷ l)) (rows_text-append (r ∷ rows) [] (0 ∷ z)) in
    let some_byte : is_empty (take 999 text) ≡ false =
      ap is_empty (take_short 999 text fits) ∙ not_empty header (rows_text (r ∷ rows) []) in
    let line =
      jump_first b'\n' text buffer header (rows_text (r ∷ rows) (0 ∷ z)) refl some_byte shown whole
        ha in
    let few : length rows < enough (some text ∷ []) = omega (
      arith,
      fits,
      rows_text-long (r ∷ rows) [],
      length-append header (b'\n' ∷ rows_text (r ∷ rows) []),
    ) in
    let (apart', column) = Clear-cons r.name (row_names rows) (row_names rows) others in
    let kept =
      first_device-rows (enough (some text ∷ [])) r rows header buffer z few whole hr h
      ∙ ap (λ d. some (returns d))
          (keep_new-distinct (row_names rows) (r.name ∷ []) (omega arith)
            (column_of (row_names rows) r.name column) apart') in
    ap settle (
      ap (λ m. first_device (enough (some text ∷ [])) route_buffer (m >>= end_of_name route_buffer))
        line
      ∙ kept)
  where
    not_empty : (a t : List ℕ) → is_empty (a ++ (b'\n' ∷ t)) ≡ false
    not_empty [] t = refl
    not_empty (x ∷ a) t = refl

    column_of :
        (names : List (List ℕ)) (name : List ℕ)
        → All (λ n. starts n name ≡ true → n ≡ name) names
        → Clear (name ∷ []) names
    column_of [] name g = tt
    column_of (n ∷ names) name (gn, g) = ((gn, tt), column_of names name g)
