-- ===== src/Program/Demo/Readings.antt =====
-- The two lines of src/libmojitos_demo.c, from moj_init to moj_clean.
use mojit_os.Base.{
  ◌==◌, length, returns, ℕ, ◌≡◌, ◌⊎◌, true, false, ◌||◌, some, List, [], ◌∷◌, ◌++◌, map,
}
use mojit_os.Base.Text.{codes}
use mojit_os.Libmojitos.{Sensor, Moj, moj_clean}
use mojit_os.Libmojitos.Invariant.{Laws, IsValid}
use mojit_os.Libmojitos.Options.{Table, sensors_of}
use mojit_os.Libmojitos.Written.{Written}
use mojit_os.Program.Demo.{decimal_long, Demo}

-- Words, each with a tab behind it.
abbrev pub tabbed : List (List ℕ) → List ℕ
tabbed [] = []
tabbed (w ∷ words) = w ++ (b'\t' ∷ tabbed words)

module _ {W St Act : Type 0} (sensors : List (Sensor W St Act)) (laws : Laws sensors) where
  -- One reading: a line of names, and a line with one value for each name; and at the end one call of
  -- its cleaner for each source of a state whose arrays fit together.
  pub record Shown (names : List (List ℕ)) (d : Demo Act) : Type 0 where
    pub values : List ℕ
    pub text_ok :
        d.text ≡ tabbed names ++ (b'\n' ∷ (tabbed (map decimal_long values) ++ (b'\n' ∷ [])))
    pub same : length values ≡ length names
    pub last : Moj W St Act
    pub last_ok : IsValid sensors laws last
    pub values_ok : last.values ≡ map some values
    pub cleaned_ok : moj_clean last ≡ returns d.cleaned
    pub cleaned_all : length d.cleaned ≡ last.nb_sources

module _ {W St Act : Type 0} (table : Table W St Act) (laws : Laws (sensors_of table)) where
  -- What the program writes behind a start that left `m`: `Usage` just where there is no argument or
  -- no value, and else one reading under the names of `m`.
  abbrev pub Finishes : ℕ → Moj W St Act → Demo Act → Type 0
  Finishes argc m d =
      (((argc == 1) || (m.nb_sensors == 0)) ≡ true
        × (d ≡ record { text = codes "Usage\n"; cleaned = [] }))
      ⊎ ((((argc == 1) || (m.nb_sensors == 0)) ≡ false)
          × (names : List (List ℕ)) × (m.labels ≡ map some names)
          × Shown (sensors_of table) laws names d)
