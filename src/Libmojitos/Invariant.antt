-- ===== src/Libmojitos/Invariant.antt =====
-- How the arrays of src/libmojitos.c fit together, from the start on and over `moj_init`.
use mojit_os.Base.{
  ◌==◌, Bool-cases, length, get_elem?, replicate, length-append, length-replicate, Outcome, returns,
  exits, faults, Safely, ℕ, zero, suc, ◌+◌, ◌-◌, ◌≡◌, refl, ◌⊎◌, inl, inr, Option, none, some, List,
  [], ◌∷◌, ◌++◌, map, arith,
}
use mojit_os.Libmojitos.{
  write_at, Getter, Sensor, MojOption, Moj, Stage, goes_on, exits_at, breaks, beside, and_then,
  moj_start, counted_source, add_initialised, add_source, start_option, start_match, handle_option,
  init_loop, moj_init,
}
use mojit_os.Libmojitos.Options.{
  Table, IsTable, sensors_of, options_of, find_sensor, match_sensor_lem, find_sensor-mem,
  HasActions, find_sensor-IsAction,
}

abbrev pub total : List ℕ → ℕ
total [] = 0
total (n ∷ ns) = n + total ns

write_at-end {ℓ} :
    {A : Type ℓ} (old vs : List A) (n : ℕ)
    → length vs ≡ n
    → write_at (map some old ++ replicate n none) (length old) vs ≡ returns (map some (old ++ vs))
unfolding write_at
write_at-end [] [] zero h = refl
write_at-end [] [] (suc n) h = absurd (omega arith)
write_at-end [] (v ∷ vs) zero h = absurd (omega arith)
write_at-end [] (v ∷ vs) (suc n) h = rw (write_at-end [] vs n (omega arith))
write_at-end (a ∷ old) vs n h = rw (write_at-end old vs n h)

total-append : (ms ns : List ℕ) → total (ms ++ ns) ≡ total ms + total ns
total-append [] ns = omega arith
total-append (m ∷ ms) ns = omega (arith, total-append ms ns)

-- What `libmojitos.c` relies on in a sensor: `Ok g n state` says that the getter `g` announces `n`
-- values from `state` on, call after call, and looks at `n` places; `init` sets this up for the count that it returns, unless it is 0
-- and the source is not kept.
pub record Laws {W St Act : Type 0} (sensors : List (Sensor W St Act)) : Type 1 where
  pub Ok : Getter W St → ℕ → St → Type 0
  pub init_ok :
      (i : ℕ) (s : Sensor W St Act)
      → get_elem? sensors i ≡ some s
      → (w : W) (arg : Option (List ℕ))
      → Safely
          (λ (started : ℕ × St).
            (started.0 ≡ 0)
            ⊎ (Ok s.get started.0 started.1 × (length (s.label started.1) ≡ started.0)))
          (s.init w arg)
  pub get_ok :
      (g : Getter W St) (n : ℕ) (state : St)
      → Ok g n state
      → (w : W)
      → Safely
          (λ (r : ℕ × List (Option ℕ) × St). (r.0 ≡ n) × (length r.1 ≡ n) × Ok g n r.2)
          (g w state)

module _ {W St Act : Type 0} (sensors : List (Sensor W St Act)) (laws : Laws sensors) where
  abbrev pub Rows : List (Getter W St) → List St → List ℕ → Type 0
  Rows [] [] [] = Unit
  Rows [] [] (n ∷ counts) = ⊥
  Rows [] (s ∷ states) counts = ⊥
  Rows (g ∷ getter) [] counts = ⊥
  Rows (g ∷ getter) (s ∷ states) [] = ⊥
  Rows (g ∷ getter) (s ∷ states) (n ∷ counts) = laws.Ok g n s × Rows getter states counts

  -- The count of each source, and how the arrays fit them. Every label is written.
  pub record IsValid (m : Moj W St Act) : Type 0 where
    pub counts : List ℕ
    pub names : List (List ℕ)
    pub rows : Rows m.getter m.states counts
    pub sources : length counts ≡ m.nb_sources
    pub cleaners : length m.cleaner ≡ m.nb_sources
    pub sensors_total : total counts ≡ m.nb_sensors
    pub values_fit : length m.values ≡ m.nb_sensors
    pub labels_written : m.labels ≡ map some names
    pub labels_fit : length names ≡ m.nb_sensors

  IsValid-start : IsValid moj_start
  IsValid-start = record {
    counts = [];
    names = [];
    rows = tt;
    sources = refl;
    cleaners = refl;
    sensors_total = refl;
    values_fit = refl;
    labels_written = refl;
    labels_fit = refl;
  }

  Rows-append :
      (getter : List (Getter W St)) (states : List St) (counts : List ℕ) (g : Getter W St) (s : St)
      (n : ℕ)
      → Rows getter states counts
      → laws.Ok g n s
      → Rows (getter ++ (g ∷ [])) (states ++ (s ∷ [])) (counts ++ (n ∷ []))
  Rows-append [] [] [] g s n r ok = (ok, tt)
  Rows-append [] [] (k ∷ counts) g s n r ok = absurd r
  Rows-append [] (t ∷ states) counts g s n r ok = absurd r
  Rows-append (f ∷ getter) [] counts g s n r ok = absurd r
  Rows-append (f ∷ getter) (t ∷ states) [] g s n r ok = absurd r
  Rows-append (f ∷ getter) (t ∷ states) (k ∷ counts) g s n (o, r) ok =
      (o, Rows-append getter states counts g s n r ok)

  add_initialised-IsValid :
      (s : Sensor W St Act) (nb : ℕ) (state : St) (m : Moj W St Act)
      → laws.Ok s.get nb state
      → length (s.label state) ≡ nb
      → IsValid m
      → Safely IsValid (add_initialised s (nb, state) (counted_source m))
  unfolding add_initialised
  add_initialised-IsValid s nb state m ok len v = elim (Bool-cases (nb == 0)) [
    | inl e ↦ let same : m.nb_sources + 1 - 1 ≡ m.nb_sources = omega arith in rw (e, same) v
    | inr e ↦
        rw (e, v.labels_written, ← v.labels_fit, write_at-end v.names (s.label state) nb len)
          (record {
            counts = v.counts ++ (nb ∷ []);
            names = v.names ++ s.label state;
            rows = Rows-append m.getter m.states v.counts s.get state nb v.rows ok;
            sources = rw length-append (omega (arith, v.sources));
            cleaners = rw length-append (omega (arith, v.cleaners));
            sensors_total = rw total-append (omega (arith, v.sensors_total, v.labels_fit));
            values_fit =
                rw (length-append, length-replicate) (omega (arith, v.values_fit, v.labels_fit));
            labels_written = refl;
            labels_fit = rw length-append (omega (arith, len));
          })
  ]

-- A source without values is not kept.
add_initialised_none :
    {W St Act : Type 0} (s : Sensor W St Act) (nb : ℕ) (state : St) (m : Moj W St Act)
    → nb ≡ 0
    → add_initialised s (nb, state) (counted_source m) ≡ returns m
unfolding add_initialised
add_initialised_none s nb state m e =
    let same : m.nb_sources + 1 - 1 ≡ m.nb_sources = omega arith in rw (e, same) refl

-- Globals that `P` says where a call returns and `Q` where the process exits in it, and no undefined
-- behaviour.
abbrev pub Stands : {M : Type 0} → (M → Type 0) → (M → Type 0) → Stage M → Type 0
Stands P Q (goes_on m) = P m
Stands P Q (exits_at code m) = Q m
Stands P Q breaks = ⊥

Stands-beside :
    {A M : Type 0} (P Q : M → Type 0) (R : A → Type 0) (m : M) (o : Outcome A) (next : A → Stage M)
    → Safely R o
    → Q m
    → ((a : A) → R a → Stands P Q (next a))
    → Stands P Q (beside m o next)
Stands-beside P Q R m (returns a) next h q k = k a h
Stands-beside P Q R m (exits code) next h q k = q
Stands-beside P Q R m faults next h q k = h

Stands-and_then :
    {M : Type 0} (P Q : M → Type 0) (stage : Stage M) (next : M → Stage M)
    → Stands P Q stage
    → ((m : M) → P m → Stands P Q (next m))
    → Stands P Q (and_then stage next)
Stands-and_then P Q (goes_on m) next h k = k m h
Stands-and_then P Q (exits_at code m) next h k = h
Stands-and_then P Q breaks next h k = h

module _ {W St Act : Type 0} (table : Table W St Act) (laws : Laws (sensors_of table)) where
  abbrev pub IsFine : Moj W St Act → Type 0
  IsFine = IsValid (sensors_of table) laws

  -- Where the process exits in `moj_init`: arrays that fit together, or such arrays with one more
  -- source counted, whose `init` is not back.
  abbrev pub Interrupted : Moj W St Act → Type 0
  Interrupted m = IsFine m ⊎ ((m' : Moj W St Act) × IsFine m' × (m ≡ counted_source m'))

  add_source-IsValid :
      (i : ℕ) (s : Sensor W St Act) (w : W) (arg : Option (List ℕ)) (m : Moj W St Act)
      → get_elem? (sensors_of table) i ≡ some s
      → IsFine m
      → Stands IsFine Interrupted (add_source w s arg m)
  unfolding add_source
  add_source-IsValid i s w arg m e v =
      let half : Interrupted (counted_source m) = inr (m, v, refl) in
      Stands-beside IsFine Interrupted _ (counted_source m) (s.init w arg) _
        (laws.init_ok i s e w arg) half
        (λ started h.
          Stands-beside IsFine Interrupted IsFine (counted_source m) _ goes_on
            (initialised started h) half (λ m' v'. v'))
    where
      initialised :
          (started : ℕ × St)
          → (started.0 ≡ 0)
            ⊎ (laws.Ok s.get started.0 started.1 × (length (s.label started.1) ≡ started.0))
          → Safely IsFine (add_initialised s started (counted_source m))
      initialised started (inl zero_values) =
          rw (add_initialised_none s started.0 started.1 m zero_values) v
      initialised started (inr (ok, len)) =
          add_initialised-IsValid (sensors_of table) laws s started.0 started.1 m ok len v

  start_option-IsValid :
      (i : ℕ) (s : Sensor W St Act) (w : W) (fn : Option (Outcome (Unit {0})))
      (arg : Option (List ℕ)) (m : Moj W St Act)
      → get_elem? (sensors_of table) i ≡ some s
      → ((f : Outcome (Unit {0})) → fn ≡ some f → Safely (λ _. Unit) f)
      → IsFine m
      → Stands IsFine Interrupted (start_option w s fn arg m)
  unfolding start_option
  start_option-IsValid i s w none arg m e a v = add_source-IsValid i s w arg m e v
  start_option-IsValid i s w (some f) arg m e a v =
      Stands-beside IsFine Interrupted (λ _. Unit) m f _ (a f refl) (inl v) (λ _ _. v)

  start_match-IsValid :
      (w : W) (opt : ℕ) (found : Option (Sensor W St Act × MojOption)) (arg : Option (List ℕ))
      (m : Moj W St Act)
      → HasActions table
      → find_sensor opt table ≡ found
      → IsFine m
      → Stands IsFine Interrupted (start_match w found arg m)
  unfolding start_match
  start_match-IsValid w opt none arg m a e v = v
  start_match-IsValid w opt (some (s, o)) arg m a e v =
      let (i, mem) = find_sensor-mem opt table s o e in
      start_option-IsValid i s w o.fn arg m mem (find_sensor-IsAction opt table s o a e) v

  handle_option-IsValid :
      (w : W) (after : List MojOption) (opt : ℕ) (arg : Option (List ℕ)) (m : Moj W St Act)
      → IsTable table
      → HasActions table
      → IsFine m
      → Stands IsFine Interrupted
          (handle_option w (options_of table ++ after) (sensors_of table) (opt, arg) m)
  unfolding handle_option
  handle_option-IsValid w after opt arg m h a v =
      rw (match_sensor_lem table after opt h) (start_match-IsValid w opt _ arg m a refl v)

  init_loop-IsValid :
      (w : W) (after : List MojOption) (options : List (ℕ × Option (List ℕ))) (m : Moj W St Act)
      → IsTable table
      → HasActions table
      → IsFine m
      → Stands IsFine Interrupted
          (init_loop w (options_of table ++ after) (sensors_of table) options m)
  unfolding init_loop
  init_loop-IsValid w after [] m h a v = v
  init_loop-IsValid w after ((opt, arg) ∷ options) m h a v =
      Stands-and_then IsFine Interrupted _ _ (handle_option-IsValid w after opt arg m h a v)
        (λ m' v'. init_loop-IsValid w after options m' h a v')

  -- With sensors that keep their laws, options that are the sensors' own, each sensor with its number
  -- of them, and actions of these options that return or exit, `moj_init` has no undefined behaviour
  -- whatever options are given. It returns with arrays that fit together: a state, a getter and a
  -- cleaner for each source, and a written label and a value cell for each of the `nb_sensors` values
  -- that the sources give. Where the process exits in it, the arrays fit together too, but for a source
  -- that is counted while its `init` is not back, if the exit is in that `init`.
  pub moj_init-IsValid :
      (w : W) (after : List MojOption) (options : List (ℕ × Option (List ℕ)))
      → IsTable table
      → HasActions table
      → Stands IsFine Interrupted
          (moj_init w (options_of table ++ after) (sensors_of table) options)
  unfolding moj_init
  moj_init-IsValid w after options h a =
      init_loop-IsValid w after options moj_start h a (IsValid-start (sensors_of table) laws)
