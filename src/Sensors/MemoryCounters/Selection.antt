-- ===== src/Sensors/MemoryCounters/Selection.antt =====
-- Which lines src/memory_counters.c looks for.
use mojit_os.Base.{
  ltb, Bool-cases, some-eq-some, length, get_elem?, All, length-append, returns, exits, faults,
  Ensures, Ensures-bind, Ensures-if, ℕ, suc, ◌+◌, ◌≤◌, ◌<◌, ◌≡◌, refl, sym, ap, ◌∙◌, inl, inr,
  false, Option, none, some, List, [], ◌∷◌, ◌++◌, append-nil, append_assoc, arith,
}
use mojit_os.Base.Text.{bytes_eq, bytes_eq_iff, tokens}
use mojit_os.InfoReader.{KeyFinder}
use mojit_os.Sensors.MemoryCounters.{
  find_name, add_index, list_names, memory_list, keyfinder_of, build_keyfinder,
  init_memory_counters, label_memory_counters,
}
use mathlib.Core.Path.{subst}

-- The index found is where the name stands.
find_name-at :
    (token : List ℕ) (names : List (List ℕ)) (i k : ℕ)
    → find_name token names i ≡ some k
    → (j : ℕ) × (k ≡ i + j) × (get_elem? names j ≡ some token)
unfolding find_name
find_name-at token [] i k h = absurd cc
find_name-at token (name ∷ names) i k h = elim (Bool-cases (bytes_eq name token)) [
  | inl e ↦
      let same : some i ≡ some k = rw e at h in
      (0, omega (arith, some-eq-some same), ap some ((bytes_eq_iff name token).0 e))
  | inr e ↦
      let (j, place, there) = find_name-at token names (i + 1) k (rw e at h) in
      (suc j, omega (arith, place), there)
]

-- Where the indexes lead in the table.
abbrev pub Lead : List (List ℕ) → List ℕ → List (List ℕ) → Type 0
Lead names [] [] = Unit
Lead names [] (t ∷ found) = ⊥
Lead names (i ∷ indexes) [] = ⊥
Lead names (i ∷ indexes) (t ∷ found) = (get_elem? names i ≡ some t) × Lead names indexes found

Lead-append :
    (names : List (List ℕ)) (indexes : List ℕ) (found : List (List ℕ)) (i : ℕ) (t : List ℕ)
    → Lead names indexes found
    → get_elem? names i ≡ some t
    → Lead names (indexes ++ (i ∷ [])) (found ++ (t ∷ []))
Lead-append names [] [] i t h e = (e, tt)
Lead-append names [] (u ∷ found) i t h e = absurd h
Lead-append names (j ∷ indexes) [] i t h e = absurd h
Lead-append names (j ∷ indexes) (u ∷ found) i t (g, h) e =
    (g, Lead-append names indexes found i t h e)

list_names-Lead :
    (names rest found : List (List ℕ)) (indexes : List ℕ)
    → Lead names indexes found
    → Ensures (λ (l : List ℕ). Lead names l (found ++ rest)) (list_names names rest indexes)
unfolding list_names
list_names-Lead names [] found indexes h =
    subst (λ (l : List (List ℕ)). Lead names indexes l) (sym (append-nil found)) h
list_names-Lead names (token ∷ rest) found indexes h =
    Ensures-bind _ (λ (l : List ℕ). Lead names l (found ++ (token ∷ [])))
      (add_index (length names) indexes (find_name token names 0)) _
      (added (find_name token names 0) refl)
      (λ l hl.
        subst
          (λ (f : List (List ℕ)).
            Ensures (λ (m : List ℕ). Lead names m f) (list_names names rest l))
          (append_assoc found (token ∷ []) rest)
          (list_names-Lead names rest (found ++ (token ∷ [])) l hl))
  where
    added :
        (o : Option ℕ)
        → find_name token names 0 ≡ o
        → Ensures
            (λ (l : List ℕ). Lead names l (found ++ (token ∷ [])))
            (add_index (length names) indexes o)
    added none e = unfold add_index in tt
    added (some k) e =
        let (j, place, there) = find_name-at token names 0 k e in
        let here : get_elem? names k ≡ some token =
          ap (get_elem? names) (omega (arith, place)) ∙ there in
        unfold add_index in
        (Ensures-if (λ (l : List ℕ). Lead names l (found ++ (token ∷ [])))
          (ltb (length indexes) (length names)) _ faults
          (Ensures-if (λ (l : List ℕ). Lead names l (found ++ (token ∷ [])))
            (ltb (length names) (length indexes + 1)) (exits 1) (returns (indexes ++ (k ∷ []))) tt
            (Lead-append names indexes found k token h here))
          tt)

build_keyfinder-labels :
    (names : List (List ℕ)) (i : ℕ) (indexes : List ℕ) (found : List (List ℕ))
    → Lead names indexes found
    → Ensures
        (λ (keys : List (KeyFinder (List ℕ))).
          (label_memory_counters keys ≡ found) × (length indexes ≡ length found))
        (build_keyfinder names i indexes)
unfolding build_keyfinder label_memory_counters keyfinder_of
build_keyfinder-labels names i [] [] h = (refl, refl)
build_keyfinder-labels names i [] (t ∷ found) h = absurd h
build_keyfinder-labels names i (idx ∷ indexes) [] h = absurd h
build_keyfinder-labels names i (idx ∷ indexes) (t ∷ found) (e, h) =
    rw (e, keyfinder_of)
      (Ensures-bind _ _ (build_keyfinder names (i + 1) indexes) _
        (build_keyfinder-labels names (i + 1) indexes found h)
        (λ keys hk. (ap (λ l. t ∷ l) hk.0, ap suc hk.1)))

-- If `init_memory_counters` returns, the labels are the names that the argument lists between commas,
-- in their order, and the number that it returns is theirs.
pub init_memory_counters-labels :
    (names : List (List ℕ)) (args : List ℕ)
    → Ensures
        (λ (r : ℕ × List (KeyFinder (List ℕ))).
          (label_memory_counters r.1 ≡ tokens b',' args) × (r.0 ≡ length (tokens b',' args)))
        (init_memory_counters names args)
unfolding init_memory_counters memory_list
init_memory_counters-labels names args =
    Ensures-bind _ _ (list_names names (tokens b',' args) []) _
      (list_names-Lead names (tokens b',' args) [] [] tt)
      (λ indexes h.
        Ensures-bind _ _ (build_keyfinder names 0 indexes) _
          (build_keyfinder-labels names 0 indexes (tokens b',' args) h) (λ keys hk. hk))

-- A name of the table is found.
abbrev pub IsKnown : List (List ℕ) → List ℕ → Type 0
IsKnown names token = (i : ℕ) × (find_name token names 0 ≡ some i)

list_names-overrun :
    (names rest : List (List ℕ)) (indexes : List ℕ)
    → All (IsKnown names) rest
    → length indexes ≤ length names
    → length names < length indexes + length rest
    → list_names names rest indexes ≡ faults
unfolding list_names add_index
list_names-overrun names [] indexes h le more = absurd (omega arith)
list_names-overrun names (token ∷ rest) indexes ((i, e), h) le more =
    elim (Bool-cases (ltb (length indexes) (length names))) [
      | inl c ↦
          let d : ltb (length names) (length indexes + 1) ≡ false = ground arith in
          rw (e, add_index)
            (rw (c, d)
              (list_names-overrun names rest (indexes ++ (i ∷ [])) h
                (ground (arith, length-append indexes (i ∷ [])))
                (omega (arith, length-append indexes (i ∷ []), more))))
      | inr c ↦ rw (e, add_index) (rw c refl)
    ]

-- With more names in the argument than the table has, all of them known, which takes a duplicate,
-- `memory_list` writes behind its array: the test for too many counters comes too late.
pub memory_list_overrun :
    (names : List (List ℕ)) (args : List ℕ)
    → All (IsKnown names) (tokens b',' args)
    → length names < length (tokens b',' args)
    → memory_list names args ≡ faults
unfolding memory_list
memory_list_overrun names args known more =
    list_names-overrun names (tokens b',' args) [] known (omega arith) (omega (arith, more))
