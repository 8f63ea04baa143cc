-- ===== src/Libmojitos/Options.antt =====
-- Which sensor an option of the command line starts.
use mojit_os.Base.{
  ◌==◌, if◌then◌else◌, Bool-cases, Option-cases, some-eq-some, length, get_elem?, All,
  length-append, get_elem?-middle, Outcome, returns, Safely, ℕ, suc, ◌+◌, ◌≡◌, refl, ◌∙◌, inl, inr,
  Option, none, some, List, [], ◌∷◌, ◌++◌, append_assoc, arith,
}
use mojit_os.Libmojitos.{Sensor, MojOption, match_option, match_sensor}
use mathlib.Core.Path.{subst}

-- The options table as `init_sensors` of the generated sensors.h fills it: the sensors' own option
-- arrays one after the other, each of the length that its sensor's `nb_opt` says.
abbrev pub Table : Type 0 → Type 0 → Type 0 → Type 0
Table W St Act = List (Sensor W St Act × List MojOption)

-- The first option with the short name.
abbrev pub find_option : ℕ → List MojOption → Option MojOption
find_option opt [] = none
find_option opt (o ∷ own) = if opt == o.shortname then some o else find_option opt own

module _ {W St Act : Type 0} where
  abbrev pub IsTable : Table W St Act → Type 0
  IsTable = All (λ (row : Sensor W St Act × List MojOption). length row.1 ≡ row.0.nb_opt)

  abbrev pub sensors_of : Table W St Act → List (Sensor W St Act)
  sensors_of [] = []
  sensors_of ((s, own) ∷ table) = s ∷ sensors_of table

  abbrev pub options_of : Table W St Act → List MojOption
  options_of [] = []
  options_of ((s, own) ∷ table) = own ++ options_of table

  -- The first sensor that declares an option with the short name, and that option.
  abbrev pub find_sensor : ℕ → Table W St Act → Option (Sensor W St Act × MojOption)
  find_sensor opt [] = none
  find_sensor opt ((s, own) ∷ table) = elim (find_option opt own) [
    | none ↦ find_sensor opt table
    | some o ↦ some (s, o)
  ]

-- The inner loop looks through the options of one sensor, and stops behind them if none fits.
match_option-find :
    (before own after : List MojOption) (opt : ℕ)
    → (next : ℕ) × (match_option (before ++ (own ++ after)) opt (length own) (length before)
        ≡ returns (find_option opt own, next))
      × (find_option opt own ≡ none → next ≡ length before + length own)
unfolding match_option
match_option-find before [] after opt = (length before, refl, λ _. omega arith)
match_option-find before (o ∷ own) after opt =
    let (next, run, end) = match_option-find (before ++ (o ∷ [])) own after opt in
    elim (Bool-cases (opt == o.shortname)) [
      | inl e ↦ (
        length before,
        rw (get_elem?-middle before o (own ++ after), match_option) (rw e),
        λ h. ground arith,
      )
      | inr e ↦ (
        next,
        rw (get_elem?-middle before o (own ++ after), match_option)
            (rw e (
              rw (append_assoc before (o ∷ []) (own ++ after), length-append before (o ∷ [])) at
                run)),
        λ h. let n = end (rw e at h) in omega (arith, n, length-append before (o ∷ [])),
      )
    ]

some-fst {ℓ κ} :
    {A : Type ℓ} {B : Type κ} {a c : A} {b d : B}
    → ◌≡◌ {A = Option (A × B)} (some (a, b)) (some (c, d))
    → some a ≡ some c
some-fst h = cc

module _ {W St Act : Type 0} where
  match_sensor-find :
      (before : List MojOption) (table : Table W St Act) (after : List MojOption) (opt : ℕ)
      → IsTable table
      → match_sensor (before ++ (options_of table ++ after)) opt (sensors_of table) (length before)
        ≡ returns (find_sensor opt table)
  unfolding match_sensor
  match_sensor-find before [] after opt h = refl
  match_sensor-find before ((s, own) ∷ table) after opt (len, h) =
      let (next, run, end) = match_option-find before own (options_of table ++ after) opt in
      let rest =
        rw (append_assoc before own (options_of table ++ after), length-append before own) at
          (match_sensor-find (before ++ own) table after opt h) in
      rw (append_assoc own (options_of table) after, rw len at run)
        (elim (Option-cases (find_option opt own)) [
          | inl e ↦
              rw (e, find_sensor, end e) (rw (← append_assoc own (options_of table) after) at rest)
          | inr (o, e) ↦ rw (e, find_sensor)
        ])

  -- With the options table that the sensors' own tables make up, the two loops of `moj_init` look an
  -- option up in the first sensor that declares its short name: another sensor that declares the same
  -- name later, as `amd_rapl` and `rapl` do, is out of reach, and an unknown option starts nothing.
  pub match_sensor_lem :
      (table : Table W St Act) (after : List MojOption) (opt : ℕ)
      → IsTable table
      → match_sensor (options_of table ++ after) opt (sensors_of table) 0
        ≡ returns (find_sensor opt table)
  match_sensor_lem table after opt h = match_sensor-find [] table after opt h

  pub find_sensor-mem :
      (opt : ℕ) (table : Table W St Act) (s : Sensor W St Act) (o : MojOption)
      → find_sensor opt table ≡ some (s, o)
      → (i : ℕ) × (get_elem? (sensors_of table) i ≡ some s)
  find_sensor-mem opt [] s o e = cc
  find_sensor-mem opt ((t, own) ∷ table) s o e = elim (Option-cases (find_option opt own)) [
    | inl n ↦
        let (i, at_i) = find_sensor-mem opt table s o (rw (n, find_sensor) at e) in (suc i, at_i)
    | inr (p, n) ↦ (0, some-fst (rw (n, find_sensor) at e))
  ]

-- An action such as the listing of counters ends the process or returns.
abbrev pub IsAction : MojOption → Type 0
IsAction o = (fn : Outcome (Unit {0})) → o.fn ≡ some fn → Safely (λ _. Unit) fn

find_option-All :
    (P : MojOption → Type 0) (opt : ℕ) (own : List MojOption) (o : MojOption)
    → All P own
    → find_option opt own ≡ some o
    → P o
find_option-All P opt [] o h e = absurd (cc)
find_option-All P opt (q ∷ own) o (h, hs) e = elim (Bool-cases (opt == q.shortname)) [
  | inl t ↦ subst P (some-eq-some (rw (t, find_option) at e)) h
  | inr t ↦ find_option-All P opt own o hs (rw (t, find_option) at e)
]

module _ {W St Act : Type 0} where
  abbrev pub HasActions : Table W St Act → Type 0
  HasActions = All (λ (row : Sensor W St Act × List MojOption). All IsAction row.1)

  some-snd :
      {s t : Sensor W St Act} {o q : MojOption}
      → ◌≡◌ {A = Option (Sensor W St Act × MojOption)} (some (s, o)) (some (t, q))
      → some o ≡ some q
  some-snd h = cc

  pub find_sensor-IsAction :
      (opt : ℕ) (table : Table W St Act) (s : Sensor W St Act) (o : MojOption)
      → HasActions table
      → find_sensor opt table ≡ some (s, o)
      → IsAction o
  find_sensor-IsAction opt [] s o h e = absurd (cc)
  find_sensor-IsAction opt ((t, own) ∷ table) s o (h, hs) e =
      elim (Option-cases (find_option opt own)) [
        | inl n ↦ find_sensor-IsAction opt table s o hs (rw (n, find_sensor) at e)
        | inr (p, n) ↦
            find_option-All IsAction opt own o h (n ∙ some-snd (rw (n, find_sensor) at e))
      ]
