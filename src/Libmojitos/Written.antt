-- ===== src/Libmojitos/Written.antt =====
-- What a call of `moj_get_values` leaves in its array, and how many cleaners `moj_clean` calls.
use mojit_os.Base.{
  length, length-map, Outcome, returns, exits, faults, ◌>>=◌, Safely, Safely-mono, Ensures,
  Ensures-bind, ℕ, zero, suc, ◌+◌, ◌<◌, ◌≡◌, refl, sym, ap, ◌∙◌, Option, some, List, [], ◌∷◌, ◌++◌,
  map, arith,
}
use mojit_os.Libmojitos.{
  Cells, Getter, Cleaner, Sensor, Moj, clean_loop, counted_source, moj_get_values, moj_clean,
}
use mojit_os.Libmojitos.Invariant.{Laws, Rows, IsValid}
use mojit_os.Libmojitos.Values.{
  overlay, poll, moj_get_values-poll, poll-Rows, moj_get_values-IsValid,
}
use mojit_os.Sensors.Deltas.{run}
use mathlib.Core.List.{map-append}

-- Cells that all are written.
abbrev pub Written : {A : Type 0} → Cells A → Type 0
Written {A} cells = (values : List A) × (cells ≡ map some values)

Safely-Ensures : {A : Type 0} (P : A → Type 0) (m : Outcome A) → Safely P m → Ensures P m
Safely-Ensures P (returns a) h = h
Safely-Ensures P (exits c) h = tt
Safely-Ensures P faults h = tt

pub Safely-and :
    {A : Type 0} (P Q : A → Type 0) (m : Outcome A)
    → Safely P m
    → Ensures Q m
    → Safely (λ a. P a × Q a) m
Safely-and P Q (returns a) h k = (h, k)
Safely-and P Q (exits c) h k = tt
Safely-and P Q faults h k = h

pub anything : {A : Type 0} (m : Outcome A) → Ensures (λ (a : A). Unit) m
anything (returns a) = tt
anything (exits c) = tt
anything faults = tt

Safely-returns :
    {A B : Type 0} (P : B → Type 0) (f : A → B) (m : Outcome A)
    → Safely P (m >>= λ (a : A). returns (f a))
    → Safely (λ (a : A). P (f a)) m
Safely-returns P f (returns a) h = h
Safely-returns P f (exits c) h = tt
Safely-returns P f faults h = h

clean_loop-all :
    {St Act : Type 0} (left : ℕ) (cleaner : List (Cleaner St Act)) (states : List St)
    → length cleaner ≡ left
    → length states ≡ left
    → (acts : List Act) × (clean_loop left cleaner states ≡ returns acts) × (length acts ≡ left)
unfolding clean_loop
clean_loop-all zero cleaner states h k = ([], refl, refl)
clean_loop-all (suc left) [] states h k = absurd (omega arith)
clean_loop-all (suc left) (c ∷ cleaner) [] h k = absurd (omega arith)
clean_loop-all (suc left) (c ∷ cleaner) (s ∷ states) h k =
    let (acts, run, long) = clean_loop-all left cleaner states (omega arith) (omega arith) in
    (c s ∷ acts, rw run refl, ap suc long)

clean_loop-short :
    {St Act : Type 0} (left : ℕ) (cleaner : List (Cleaner St Act)) (states : List St)
    → length cleaner < left
    → clean_loop left cleaner states ≡ faults
unfolding clean_loop
clean_loop-short zero cleaner states h = absurd (omega arith)
clean_loop-short (suc left) [] states h = refl
clean_loop-short (suc left) (c ∷ cleaner) [] h = refl
clean_loop-short (suc left) (c ∷ cleaner) (s ∷ states) h =
    rw (clean_loop-short left cleaner states (omega arith)) refl

overlay-some :
    {A : Type 0} (cells : Cells A) (vs : List A)
    → length cells ≡ length vs
    → overlay cells (map some vs) ≡ map some vs
overlay-some [] [] h = refl
overlay-some [] (v ∷ vs) h = absurd (omega arith)
overlay-some (c ∷ cells) [] h = absurd (omega arith)
overlay-some (c ∷ cells) (v ∷ vs) h = ap (λ l. some v ∷ l) (overlay-some cells vs (omega arith))

-- Sensors that write every value that they announce, at each call.
abbrev pub Fills : {W St Act : Type 0} {sensors : List (Sensor W St Act)} → Laws sensors → Type 0
Fills {W} {St} laws =
    (g : Getter W St) (n : ℕ) (state : St)
    → laws.Ok g n state
    → (w : W) → Ensures (λ (r : ℕ × List (Option ℕ) × St). Written r.1) (g w state)

module _ {W St Act : Type 0} (sensors : List (Sensor W St Act)) (laws : Laws sensors) where
  poll-Written :
      (w : W) (getter : List (Getter W St)) (states : List St) (counts : List ℕ)
      → Fills laws
      → Rows sensors laws getter states counts
      → Ensures (λ (r : List (Option ℕ) × List St). Written r.0) (poll w getter states)
  poll-Written w [] [] [] f r = ([], refl)
  poll-Written w [] [] (n ∷ counts) f r = absurd r
  poll-Written w [] (s ∷ states) counts f r = absurd r
  poll-Written w (g ∷ getter) [] counts f r = absurd r
  poll-Written w (g ∷ getter) (s ∷ states) [] f r = absurd r
  poll-Written w (g ∷ getter) (s ∷ states) (n ∷ counts) f (ok, r) =
      Ensures-bind _ (λ (a : ℕ × List (Option ℕ) × St). Written a.1) (g w s) _ (f g n s ok w)
        (λ a ha.
          Ensures-bind _ (λ (b : List (Option ℕ) × List St). Written b.0) (poll w getter states) _
            (poll-Written w getter states counts f r)
            (λ b hb. (
              ha.0 ++ hb.0,
              ap (λ l. l ++ b.0) ha.1
                  ∙ ap (λ l. map some ha.0 ++ l) hb.1
                  ∙ sym (map-append some ha.0 hb.0),
            )))

  -- The values of a poll fit the arrays.
  pub poll-IsValid :
      (w : W) (m : Moj W St Act)
      → IsValid sensors laws m
      → Safely
          (λ (r : List (Option ℕ) × List St).
            IsValid sensors laws (record m { states = r.1; values = overlay m.values r.0 }))
          (poll w m.getter m.states)
  poll-IsValid w m v =
      let safe : Safely (IsValid sensors laws) (moj_get_values w m) =
        moj_get_values-IsValid sensors laws w m v in
      Safely-returns (IsValid sensors laws)
        (λ (r : List (Option ℕ) × List St). record m {
          states = r.1;
          values = overlay m.values r.0;
        })
        (poll w m.getter m.states) (rw (moj_get_values-poll sensors laws w m v) at safe)

  -- With sensors that write everything, all values are written.
  poll-overlay :
      (m : Moj W St Act) (r : List (Option ℕ) × List St)
      → IsValid sensors laws m
      → IsValid sensors laws (record m { states = r.1; values = overlay m.values r.0 })
      → length r.0 ≡ m.nb_sensors
      → Written r.0
      → Written (overlay m.values r.0)
  poll-overlay m r v v' long (values, same) =
      let count : length m.values ≡ length values =
        v.values_fit ∙ sym long ∙ ap length same ∙ length-map some values in
      (values, ap (overlay m.values) same ∙ overlay-some m.values values count)

  pub poll-filled :
      (w : W) (m : Moj W St Act)
      → Fills laws
      → IsValid sensors laws m
      → Safely
          (λ (r : List (Option ℕ) × List St).
            IsValid sensors laws (record m { states = r.1; values = overlay m.values r.0 })
            × Written (overlay m.values r.0))
          (poll w m.getter m.states)
  poll-filled w m f v =
      Safely-mono _ _ (poll w m.getter m.states)
        (λ r h. (h.0.0, poll-overlay m r v h.0.0 h.0.1 h.1))
        (Safely-and
          (λ (r : List (Option ℕ) × List St).
            IsValid sensors laws (record m { states = r.1; values = overlay m.values r.0 })
            × (length r.0 ≡ m.nb_sensors))
          (λ (r : List (Option ℕ) × List St). Written r.0) (poll w m.getter m.states)
          (Safely-and _ _ (poll w m.getter m.states) (poll-IsValid w m v) (
            Safely-Ensures (λ (r : List (Option ℕ) × List St). length r.0 ≡ m.nb_sensors)
              (poll w m.getter m.states)
              (Safely-mono _ _ (poll w m.getter m.states) (λ r h. h.1 ∙ v.sensors_total)
                (poll-Rows sensors laws w m.getter m.states v.counts v.rows))))
          (poll-Written w m.getter m.states v.counts f v.rows))

  pub moj_get_values-Written :
      (w : W) (m : Moj W St Act)
      → Fills laws
      → IsValid sensors laws m
      → Ensures
          (λ (m' : Moj W St Act). IsValid sensors laws m' × Written m'.values)
          (moj_get_values w m)
  moj_get_values-Written w m f v = rw (moj_get_values-poll sensors laws w m v) (
      Ensures-bind (λ (m' : Moj W St Act). IsValid sensors laws m' × Written m'.values)
        (λ (r : List (Option ℕ) × List St).
          IsValid sensors laws (record m { states = r.1; values = overlay m.values r.0 })
          × Written (overlay m.values r.0))
        (poll w m.getter m.states) _
        (Safely-Ensures _ (poll w m.getter m.states) (poll-filled w m f v)) (λ r h. h))

  states_count :
      (getter : List (Getter W St)) (states : List St) (counts : List ℕ)
      → Rows sensors laws getter states counts
      → length states ≡ length counts
  states_count [] [] [] r = refl
  states_count [] [] (n ∷ counts) r = absurd r
  states_count [] (s ∷ states) counts r = absurd r
  states_count (g ∷ getter) [] counts r = absurd r
  states_count (g ∷ getter) (s ∷ states) [] r = absurd r
  states_count (g ∷ getter) (s ∷ states) (n ∷ counts) (ok, r) =
      ap suc (states_count getter states counts r)

  pub moj_clean-IsValid :
      (m : Moj W St Act)
      → IsValid sensors laws m
      → (acts : List Act) × (moj_clean m ≡ returns acts) × (length acts ≡ m.nb_sources)
  unfolding moj_clean
  moj_clean-IsValid m v =
      let same = states_count m.getter m.states v.counts v.rows in
      clean_loop-all m.nb_sources m.cleaner m.states v.cleaners (same ∙ v.sources)

  -- From arrays that fit together, `moj_clean` calls the cleaner of each source once; but with one more
  -- source counted, as `add_source` has it while it runs `init`, it reads a cleaner that is not set.
  pub moj_clean-counted_source :
      (m : Moj W St Act)
      → IsValid sensors laws m
      → ((acts : List Act) × (moj_clean m ≡ returns acts) × (length acts ≡ m.nb_sources))
        × (moj_clean (counted_source m) ≡ faults)
  unfolding moj_clean
  moj_clean-counted_source m v = (
    moj_clean-IsValid m v,
    clean_loop-short (m.nb_sources + 1) m.cleaner m.states (omega (arith, v.cleaners)),
  )
