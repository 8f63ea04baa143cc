-- ===== src/Sensors/Routes/Distinct.antt =====
-- The devices of a route file against the first distinct names of its rows.
use mojit_os.Base.{
  leb, if◌then◌else◌, leb→le, Bool-cases, length, take, All, length-append, All-append, ℕ, zero,
  suc, ◌≤◌, ◌≡◌, refl, sym, ap, ◌∙◌, inl, inr, Bool, true, false, ◌||◌, List, [], ◌∷◌, ◌++◌,
  append-nil, append_assoc, arith,
}
use mojit_os.Base.Text.{starts, bytes_eq, bytes_eq_iff}
use mojit_os.Sensors.Routes.{nb_max_dev}
use mojit_os.Sensors.Routes.Rows.{begun, keep_new}

-- Devices that were seen.
abbrev pub seen_name : List ℕ → List (List ℕ) → Bool
seen_name name [] = false
seen_name name (dev ∷ devs) = bytes_eq name dev || seen_name name devs

-- The names in the order of their first rows, but those that were seen.
abbrev pub distinct : List (List ℕ) → List (List ℕ) → List (List ℕ)
distinct seen [] = []
distinct seen (name ∷ names) =
    let same = distinct seen names in
    let more = distinct (seen ++ (name ∷ [])) names in
    if seen_name name seen then same else name ∷ more

-- A name of the second list that begins a name of the first one is that name.
abbrev pub Clear : List (List ℕ) → List (List ℕ) → Type 0
Clear devs names = All (λ n. All (λ d. starts n d ≡ true → n ≡ d) devs) names

starts_refl : (s : List ℕ) → starts s s ≡ true
unfolding starts
starts_refl [] = refl
starts_refl (c ∷ s) = ground (arith, starts_refl s)

starts-bytes_eq : (n d : List ℕ) → (starts n d ≡ true → n ≡ d) → starts n d ≡ bytes_eq n d
starts-bytes_eq n d h = elim (Bool-cases (starts n d)) [
  | inl e ↦ e ∙ sym ((bytes_eq_iff n d).1 (h e))
  | inr e ↦ elim (Bool-cases (bytes_eq n d)) [
    | inl same ↦ absurd (cc (e, ap (starts n) ((bytes_eq_iff n d).0 same), starts_refl n))
    | inr other ↦ e ∙ sym other
  ]
]

begun-seen_name :
    (n : List ℕ) (devs : List (List ℕ))
    → All (λ d. starts n d ≡ true → n ≡ d) devs
    → begun n devs ≡ seen_name n devs
begun-seen_name n [] h = refl
begun-seen_name n (d ∷ devs) (hd, h) = rw (starts-bytes_eq n d hd, begun-seen_name n devs h) refl

Clear-snoc :
    (devs names : List (List ℕ)) (name : List ℕ)
    → Clear devs names
    → All (λ n. starts n name ≡ true → n ≡ name) names
    → Clear (devs ++ (name ∷ [])) names
Clear-snoc devs [] name h g = tt
Clear-snoc devs (n ∷ names) name (hn, h) (gn, g) = (
  All-append (λ d. starts n d ≡ true → n ≡ d) devs (name ∷ []) hn (gn, tt),
  Clear-snoc devs names name h g,
)

-- Off the first name of both lists.
pub Clear-cons :
    (name : List ℕ) (devs names : List (List ℕ))
    → Clear (name ∷ devs) names
    → Clear devs names × All (λ n. starts n name ≡ true → n ≡ name) names
Clear-cons name devs [] h = (tt, tt)
Clear-cons name devs (n ∷ names) ((hn, hd), h) =
    let (a, b) = Clear-cons name devs names h in ((hd, a), (hn, b))

take-all : (n : ℕ) (xs : List (List ℕ)) → length xs ≤ n → take n xs ≡ xs
take-all zero [] h = refl
take-all zero (x ∷ xs) h = absurd (omega arith)
take-all (suc n) [] h = refl
take-all (suc n) (x ∷ xs) h = ap (λ l. x ∷ l) (take-all n xs (omega arith))

take-full : (n : ℕ) (xs ys : List (List ℕ)) → length xs ≡ n → take n (xs ++ ys) ≡ xs
take-full zero [] ys h = refl
take-full zero (x ∷ xs) ys h = absurd (omega arith)
take-full (suc n) [] ys h = absurd (omega arith)
take-full (suc n) (x ∷ xs) ys h = ap (λ l. x ∷ l) (take-full n xs ys (omega arith))

pub keep_new-distinct :
    (names devs : List (List ℕ))
    → length devs ≤ nb_max_dev
    → Clear devs names
    → Clear names names
    → keep_new devs names ≡ take nb_max_dev (devs ++ distinct devs names)
keep_new-distinct [] devs few clear apart =
    rw (append-nil devs) (sym (take-all nb_max_dev devs few))
keep_new-distinct (name ∷ names) devs few (hn, clear) (apart_n, apart) =
    let (apart', column) = Clear-cons name names names apart in
    rw (begun-seen_name name devs hn) (elim (Bool-cases (seen_name name devs)) [
      | inl known ↦ rw known (keep_new-distinct names devs few clear apart')
      | inr new ↦ rw new (elim (Bool-cases (leb nb_max_dev (length devs))) [
        | inl full ↦
            rw full (sym (take-full nb_max_dev devs _ (omega (arith, few, leb→le _ _ full))))
        | inr room ↦ rw room (
            keep_new-distinct names (devs ++ (name ∷ []))
              (ground (arith, length-append devs (name ∷ [])))
              (Clear-snoc devs names name clear column) apart'
            ∙ ap (take nb_max_dev)
                (append_assoc devs (name ∷ []) (distinct (devs ++ (name ∷ [])) names)))
      ])
    ])
