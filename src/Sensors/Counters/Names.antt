-- ===== src/Sensors/Counters/Names.antt =====
-- The names that src/counters.c reports its counters under.
use mojit_os.Base.{
  Bool-cases, some-eq-some, length, get_elem?, Outcome, returns, exits, faults, ◌>>=◌, Ensures,
  Ensures-bind, ℕ, suc, ◌+◌, ◌≡◌, refl, ap, ◌∙◌, inl, inr, Option, none, some, List, [], ◌∷◌, arith,
}
use mojit_os.Base.Text.{bytes_eq, bytes_eq_iff, tokens}
use mojit_os.Sensors.Counters.{
  PerfInfo, Counter, find_perf, known_perf, list_perfs, perf_event_list, static_info, perf_type_key,
  OpenPerf, open_counters, CountRead, _get_counters, init_counters, label_perfs, label_counters,
}

-- The index found is where the name stands.
find_perf-at :
    (token : List ℕ) (infos : List PerfInfo) (i k : ℕ)
    → find_perf token infos i ≡ some k
    → (j : ℕ) × (info : PerfInfo) × (k ≡ i + j)
      × (get_elem? infos j ≡ some info)
      × (info.name ≡ token)
unfolding find_perf
find_perf-at token [] i k h = absurd cc
find_perf-at token (info ∷ infos) i k h = elim (Bool-cases (bytes_eq info.name token)) [
  | inl e ↦
      let same : some i ≡ some k = rw e at h in
      (0, info, omega (arith, some-eq-some same), refl, (bytes_eq_iff info.name token).0 e)
  | inr e ↦
      let (j, found, place, there, name) = find_perf-at token infos (i + 1) k (rw e at h) in
      (suc j, found, omega (arith, place), there, name)
]

-- Names and indexes of the table belong together.
abbrev pub Named : List PerfInfo → List (List ℕ) → List ℕ → Type 0
Named infos names indexes = label_perfs infos indexes ≡ returns names

list_perfs-Named :
    (infos : List PerfInfo) (names : List (List ℕ))
    → Ensures
        (λ (indexes : List ℕ). Named infos names indexes × (length indexes ≡ length names))
        (list_perfs infos names)
unfolding list_perfs label_perfs
list_perfs-Named infos [] = (refl, refl)
list_perfs-Named infos (name ∷ names) =
    found (find_perf name infos 0) (λ k e. find_perf-at name infos 0 k e)
      (list_perfs-Named infos names)
  where
    found :
        (o : Option ℕ)
        → ((k : ℕ)
            → o ≡ some k
            → (j : ℕ) × (info : PerfInfo) × (k ≡ 0 + j)
              × (get_elem? infos j ≡ some info)
              × (info.name ≡ name))
        → Ensures
            (λ (l : List ℕ). Named infos names l × (length l ≡ length names))
            (list_perfs infos names)
        → Ensures
            (λ (indexes : List ℕ).
              Named infos (name ∷ names) indexes × (length indexes ≡ suc (length names)))
            (known_perf o >>= λ i. list_perfs infos names >>= λ l. returns (i ∷ l))
    found none h ih = unfold known_perf in tt
    found (some k) h ih =
        unfold known_perf in
        (Ensures-bind _ _ (list_perfs infos names) (λ l. returns (k ∷ l)) ih
          (λ l hl.
            let (j, info, place, there, same) = h k refl in
            let here : get_elem? infos k ≡ some info =
              ap (get_elem? infos) (omega (arith, place)) ∙ there in
            (rw (here, static_info) (rw (hl.0, same) refl), ap suc hl.1)))

-- If `init_counters` returns, the labels are the names that the argument lists between commas, in
-- their order, and the number that it returns is theirs: no access to the table is outside of it.
pub init_counters-label_counters :
    (infos : List PerfInfo) (sys : OpenPerf) (nbcores : ℕ) (reads : ℕ → CountRead) (args : List ℕ)
    → Ensures
        (λ (r : ℕ × List ℕ × Counter).
          (label_counters infos r.2 ≡ returns (tokens b',' args))
          × (r.0 ≡ length (tokens b',' args)))
        (init_counters infos sys nbcores reads args)
unfolding init_counters perf_event_list label_counters
init_counters-label_counters infos sys nbcores reads args =
    Ensures-bind _ _ (list_perfs infos (tokens b',' args)) _
      (list_perfs-Named infos (tokens b',' args))
      (λ indexes h.
        Ensures-bind _ (λ (t : List (ℕ × ℕ)). Unit) (perf_type_key infos indexes) _ (anything _)
          (λ types _.
            Ensures-bind _ (λ (t : List (List ℕ)). Unit) (open_counters sys nbcores types) _
              (anything _)
              (λ counters _.
                Ensures-bind _ (λ (t : List ℕ). Unit) (_get_counters reads counters) _ (anything _)
                  (λ values _. h))))
  where
    anything : {A : Type 0} (m : Outcome A) → Ensures (λ (a : A). Unit) m
    anything (returns a) = tt
    anything (exits c) = tt
    anything faults = tt
