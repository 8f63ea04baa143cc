-- ===== src/Libmojitos/Values.antt =====
-- `moj_get_values` against a description with no offsets.
use mojit_os.Base.{
  length, take, drop, length-append, length-take, length-drop, take-append-drop, Outcome, returns,
  exits, faults, ◌>>=◌, Safely, Safely-bind, >>=_assoc, ℕ, suc, ◌+◌, ◌≡◌, refl, sym, ap, ◌∙◌,
  Option, List, [], ◌∷◌, ◌++◌, append_assoc, arith,
}
use mojit_os.Libmojitos.{
  Cells, over, write_over, Getter, Sensor, Moj, get_values_loop, moj_get_values,
}
use mojit_os.Libmojitos.Invariant.{total, Laws, Rows, IsValid}

-- What writes leave of cells.
abbrev pub overlay {ℓ} : {A : Type ℓ} → Cells A → List (Option A) → Cells A
overlay [] vs = []
overlay (c ∷ cells) [] = c ∷ cells
overlay (c ∷ cells) (v ∷ vs) = over c v ∷ overlay cells vs

pub length-overlay {ℓ} :
    {A : Type ℓ} (cells : Cells A) (vs : List (Option A)) → length (overlay cells vs) ≡ length cells
length-overlay [] vs = refl
length-overlay (c ∷ cells) [] = refl
length-overlay (c ∷ cells) (v ∷ vs) = ap suc (length-overlay cells vs)

overlay-append {ℓ} :
    {A : Type ℓ} (mid back : Cells A) (vs ws : List (Option A))
    → length mid ≡ length vs
    → overlay (mid ++ back) (vs ++ ws) ≡ overlay mid vs ++ overlay back ws
overlay-append [] back [] ws h = refl
overlay-append [] back (v ∷ vs) ws h = absurd (omega arith)
overlay-append (c ∷ mid) back [] ws h = absurd (omega arith)
overlay-append (c ∷ mid) back (v ∷ vs) ws h =
    ap (λ l. over c v ∷ l) (overlay-append mid back vs ws (omega arith))

overlay-nil {ℓ} : {A : Type ℓ} (cells : Cells A) → overlay cells [] ≡ cells
overlay-nil [] = refl
overlay-nil (c ∷ cells) = refl

write_over-middle {ℓ} :
    {A : Type ℓ} (front mid back : Cells A) (vs : List (Option A))
    → length mid ≡ length vs
    → write_over (front ++ (mid ++ back)) (length front) vs
      ≡ returns (front ++ (overlay mid vs ++ back))
unfolding write_over
write_over-middle [] [] back [] h = ground arith
write_over-middle [] [] back (v ∷ vs) h = absurd (omega arith)
write_over-middle [] (c ∷ mid) back [] h = absurd (omega arith)
write_over-middle [] (c ∷ mid) back (v ∷ vs) h =
    rw (write_over-middle [] mid back vs (omega arith)) refl
write_over-middle (c ∷ front) mid back vs h = rw (write_over-middle front mid back vs h) refl

-- The result of a poll behind the cells of earlier sources.
abbrev behind {ℓ} :
    {St : Type ℓ} → Cells ℕ → Cells ℕ → List (Option ℕ) × List St → Outcome (List St × Cells ℕ)
behind front back r = returns (r.1, front ++ overlay back r.0)

regroup {ℓ} :
    {St : Type ℓ} (front mid back : Cells ℕ) (out : List (Option ℕ)) (s : St)
    (o : Outcome (List (Option ℕ) × List St))
    → length mid ≡ length out
    → (o >>= behind (front ++ overlay mid out) back >>= λ rest. returns (s ∷ rest.0, rest.1))
      ≡ ((o >>= λ rest. returns (out ++ rest.0, s ∷ rest.1)) >>= behind front (mid ++ back))
regroup front mid back out s (returns (more, states)) h =
    rw
      (overlay-append mid back out more h, append_assoc front (overlay mid out) (overlay back more))
      refl
regroup front mid back out s (exits c) h = refl
regroup front mid back out s faults h = refl

module _ {W St : Type 0} where
  -- Asks the sources in order and puts what they write one after the other.
  abbrev pub poll : W → List (Getter W St) → List St → Outcome (List (Option ℕ) × List St)
  poll w [] states = returns ([], states)
  poll w (get ∷ getter) [] = faults
  poll w (get ∷ getter) (state ∷ states) = do
    (count, written, state') ← get w state
    (more, states') ← poll w getter states
    returns (written ++ more, state' ∷ states')

  -- One source that wrote over `mid`.
  source_wrote :
      (w : W) (getter : List (Getter W St)) (states : List St) (front mid back : Cells ℕ)
      (out : List (Option ℕ)) (s : St)
      → length mid ≡ length out
      → get_values_loop w
          (length (front ++ overlay mid out))
          getter
          states
          ((front ++ overlay mid out) ++ back)
        ≡ (poll w getter states >>= behind (front ++ overlay mid out) back)
      → (write_over (front ++ (mid ++ back)) (length front) out >>= λ values'.
          get_values_loop w (length front + length out) getter states values' >>= λ rest.
          returns (s ∷ rest.0, rest.1))
        ≡ ((poll w getter states >>= λ rest. returns (out ++ rest.0, s ∷ rest.1))
            >>= behind front (mid ++ back))
  source_wrote w getter states front mid back out s fits rest =
      let long : length (front ++ overlay mid out) ≡ length front + length out =
        length-append front (overlay mid out)
        ∙ ap (λ n. length front + n) (length-overlay mid out ∙ fits) in
      let rest' = rw (long, append_assoc front (overlay mid out) back) at rest in
      rw (write_over-middle front mid back out fits, rest')
        (regroup front mid back out s (poll w getter states) fits)

  -- One source, given what the later ones do.
  source_step :
      (w : W) (getter : List (Getter W St)) (states : List St) (n m : ℕ) (front back : Cells ℕ)
      (o : Outcome (ℕ × List (Option ℕ) × St)) (Q : St → Type 0)
      → ((front' back' : Cells ℕ)
          → length back' ≡ m
          → get_values_loop w (length front') getter states (front' ++ back')
            ≡ (poll w getter states >>= behind front' back'))
      → length back ≡ n + m
      → Safely (λ (r : ℕ × List (Option ℕ) × St). (r.0 ≡ n) × (length r.1 ≡ n) × Q r.2) o
      → (o >>= λ r. write_over (front ++ back) (length front) r.1 >>= λ values'.
          get_values_loop w (length front + r.0) getter states values' >>= λ rest.
          returns (r.2 ∷ rest.0, rest.1))
        ≡ ((o >>= λ r. poll w getter states >>= λ rest. returns (r.1 ++ rest.0, r.2 ∷ rest.1))
            >>= behind front back)
  source_step w getter states n m front back (exits c) Q ih len h = refl
  source_step w getter states n m front back faults Q ih len h = absurd h
  source_step w getter states n m front back (returns (count, out, s)) Q ih len (hc, ho, q) =
      let wrote =
        source_wrote w getter states front (take n back) (drop n back) out s
          (length-take n back ∙ omega arith)
          (ih (front ++ overlay (take n back) out) (drop n back)
            (length-drop n back ∙ omega arith)) in
      rw (hc ∙ sym ho) (rw (take-append-drop n back) at wrote)

module _ {W St Act : Type 0} (sensors : List (Sensor W St Act)) (laws : Laws sensors) where
  get_values_loop-poll :
      (w : W) (getter : List (Getter W St)) (states : List St) (counts : List ℕ)
      (front back : Cells ℕ)
      → Rows sensors laws getter states counts
      → length back ≡ total counts
      → get_values_loop w (length front) getter states (front ++ back)
        ≡ (poll w getter states >>= behind front back)
  unfolding get_values_loop
  get_values_loop-poll w [] [] [] front [] r h = refl
  get_values_loop-poll w [] [] [] front (c ∷ back) r h = absurd (omega arith)
  get_values_loop-poll w [] [] (n ∷ counts) front back r h = absurd r
  get_values_loop-poll w [] (s ∷ states) counts front back r h = absurd r
  get_values_loop-poll w (g ∷ getter) [] counts front back r h = absurd r
  get_values_loop-poll w (g ∷ getter) (s ∷ states) [] front back r h = absurd r
  get_values_loop-poll w (g ∷ getter) (s ∷ states) (n ∷ counts) front back (ok, r) h =
      source_step w getter states n (total counts) front back (g w s) (λ st. laws.Ok g n st)
        (λ front' back' h'. get_values_loop-poll w getter states counts front' back' r h') h
        (laws.get_ok g n s ok w)

  -- From arrays that fit together, with sensors that keep their laws, `moj_get_values` asks the sources
  -- once each, in the order in which they were added; it writes in bounds, and then `values` holds what
  -- they wrote, one source after the other, and in the places that they left out what it held before.
  pub moj_get_values-poll :
      (w : W) (m : Moj W St Act)
      → IsValid sensors laws m
      → moj_get_values w m ≡ (
          poll w m.getter m.states >>= λ r.
          returns (record m { states = r.1; values = overlay m.values r.0 }))
  unfolding moj_get_values
  moj_get_values-poll w m v =
      rw
        (get_values_loop-poll w m.getter m.states v.counts [] m.values v.rows
          (v.values_fit ∙ sym v.sensors_total))
        (>>=_assoc (poll w m.getter m.states) (behind [] m.values) _)

  pub poll-Rows :
      (w : W) (getter : List (Getter W St)) (states : List St) (counts : List ℕ)
      → Rows sensors laws getter states counts
      → Safely
          (λ (r : List (Option ℕ) × List St).
            Rows sensors laws getter r.1 counts × (length r.0 ≡ total counts))
          (poll w getter states)
  poll-Rows w [] [] [] r = (tt, refl)
  poll-Rows w [] [] (n ∷ counts) r = absurd r
  poll-Rows w [] (s ∷ states) counts r = absurd r
  poll-Rows w (g ∷ getter) [] counts r = absurd r
  poll-Rows w (g ∷ getter) (s ∷ states) [] r = absurd r
  poll-Rows w (g ∷ getter) (s ∷ states) (n ∷ counts) (ok, r) =
      Safely-bind _ _ (g w s) _ (laws.get_ok g n s ok w) (λ a ha.
        Safely-bind _ _ (poll w getter states) _ (poll-Rows w getter states counts r)
          (λ b hb. ((ha.2, hb.0), length-append a.1 b.0 ∙ omega (arith, ha.1, hb.1))))

  -- A call of `moj_get_values` never writes out of bounds, and leaves arrays that fit together again,
  -- so that it can be called without end.
  pub moj_get_values-IsValid :
      (w : W) (m : Moj W St Act)
      → IsValid sensors laws m
      → Safely (IsValid sensors laws) (moj_get_values w m)
  moj_get_values-IsValid w m v = rw (moj_get_values-poll w m v) (
      Safely-bind _ _ (poll w m.getter m.states) _ (poll-Rows w m.getter m.states v.counts v.rows)
        (λ r h. record {
          counts = v.counts;
          names = v.names;
          rows = h.0;
          sources = v.sources;
          cleaners = v.cleaners;
          sensors_total = v.sensors_total;
          values_fit = length-overlay m.values r.0 ∙ v.values_fit;
          labels_written = v.labels_written;
          labels_fit = v.labels_fit;
        }))
