-- ===== src/Sensors/Counters/Listing.antt =====
-- The counters that src/counters.c lists, and those that it takes.
use mojit_os.Base.{
  Bool-cases, length, All, length-append, returns, exits, ℕ, ◌+◌, ◌≡◌, refl, ap, ◌⊎◌, inl, inr,
  false, none, some, List, [], ◌∷◌, ◌++◌, arith,
}
use mojit_os.Base.Text.{bytes_eq, bytes_eq_iff, tokens}
use mojit_os.Sensors.Counters.{
  PerfInfo, show_all_counters, find_perf, known_perf, list_perfs, perf_event_list,
}

-- The line of a name is there.
abbrev pub IsListed : List (List ℕ) → List ℕ → Type 0
IsListed [] name = ⊥
IsListed (line ∷ lines) name = (line ≡ name ++ (b'\n' ∷ [])) ⊎ IsListed lines name

append_same_end : (x : ℕ) (a b : List ℕ) → a ++ (x ∷ []) ≡ b ++ (x ∷ []) → a ≡ b
append_same_end x [] [] h = refl
append_same_end x [] (d ∷ b) h = absurd (omega (arith, ap length h, length-append b (x ∷ [])))
append_same_end x (c ∷ a) [] h = absurd (omega (arith, ap length h, length-append a (x ∷ [])))
append_same_end x (c ∷ a) (d ∷ b) h =
    let heads : c ≡ d = cc in
    let tails : a ++ (x ∷ []) ≡ b ++ (x ∷ []) = cc in let same = append_same_end x a b tails in cc

-- A name is found just when it is listed.
find_perf-IsListed :
    (token : List ℕ) (infos : List PerfInfo) (i : ℕ)
    → ((k : ℕ) × (find_perf token infos i ≡ some k) × IsListed (show_all_counters infos).0 token)
      ⊎ ((find_perf token infos i ≡ none) × ¬ IsListed (show_all_counters infos).0 token)
unfolding find_perf show_all_counters
find_perf-IsListed token [] i = inr (refl, λ h. h)
find_perf-IsListed token (info ∷ infos) i = elim (Bool-cases (bytes_eq info.name token)) [
  | inl e ↦
      let same = (bytes_eq_iff info.name token).0 e in
      inl (i, rw e refl, inl (ap (λ l. l ++ (b'\n' ∷ [])) same))
  | inr e ↦ elim (find_perf-IsListed token infos (i + 1)) [
    | inl (k, found, listed) ↦ inl (k, rw e found, inr listed)
    | inr (lost, unlisted) ↦ inr (rw e lost, other e unlisted)
  ]
]
  where
    other :
        bytes_eq info.name token ≡ false
        → ¬ IsListed (show_all_counters infos).0 token
        → ¬ IsListed (show_all_counters (info ∷ infos)).0 token
    other e unlisted (inl same) =
        let equal = (bytes_eq_iff info.name token).1 (append_same_end b'\n' info.name token same) in
        absurd cc
    other e unlisted (inr later) = unlisted later

list_perfs-IsListed :
    (infos : List PerfInfo) (names : List (List ℕ))
    → (All (IsListed (show_all_counters infos).0) names
        × (indexes : List ℕ) × (list_perfs infos names ≡ returns indexes))
      ⊎ (¬ (All (IsListed (show_all_counters infos).0) names) × (list_perfs infos names ≡ exits 1))
unfolding list_perfs known_perf
list_perfs-IsListed infos [] = inl (tt, [], refl)
list_perfs-IsListed infos (name ∷ names) = elim (find_perf-IsListed name infos 0) [
  | inr (lost, unlisted) ↦ inr (λ h. unlisted h.0, rw lost refl)
  | inl (k, found, listed) ↦ elim (list_perfs-IsListed infos names) [
    | inl (all, indexes, e) ↦ inl ((listed, all), k ∷ indexes, rw (found, e) refl)
    | inr (some_lost, e) ↦ inr (λ h. some_lost h.1, rw (found, e) refl)
  ]
]

-- `show_all_counters` lists just the names that the program takes: `perf_event_list` returns when each
-- name between the commas of its argument has a line there, and exits with 1 when one has none.
pub perf_event_list-IsListed :
    (infos : List PerfInfo) (perf_string : List ℕ)
    → (All (IsListed (show_all_counters infos).0) (tokens b',' perf_string)
        → (indexes : List ℕ) × (perf_event_list infos perf_string ≡ returns indexes))
      × (¬ (All (IsListed (show_all_counters infos).0) (tokens b',' perf_string))
          → perf_event_list infos perf_string ≡ exits 1)
unfolding perf_event_list
perf_event_list-IsListed infos perf_string =
    elim (list_perfs-IsListed infos (tokens b',' perf_string)) [
      | inl (all, indexes, e) ↦ (λ h. (indexes, e), λ h. absurd (h all))
      | inr (lost, e) ↦ (λ h. absurd (lost h), λ h. e)
    ]
