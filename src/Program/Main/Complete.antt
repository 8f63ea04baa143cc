-- ===== src/Program/Main/Complete.antt =====
-- A whole run of mojitos that measures a program for a given time.
use mojit_os.Base.{length, returns, ℕ, suc, ◌*◌, ◌^◌, ◌≤◌, ◌<◌, ◌≡◌, some, List}
use mojit_os.Libmojitos.{Sensor, Moj, moj_clean}
use mojit_os.Libmojitos.Invariant.{Laws, IsValid}
use mojit_os.Program.Loop.{Settings, Moment}
use mojit_os.Program.Loop.Rounds.{IsFrequency}
use mojit_os.Program.Main.{Ending}

-- The settings of a run of some rounds, and moments for them.
pub record IsTimed {W : Type 0} (s : Settings) (moments : List (Moment W)) : Type 0 where
  pub frequency_ok : IsFrequency s
  pub counts_rounds : s.delta ≡ 1
  pub time_ok : s.total_time < 2 ^ 31
  pub product_ok : s.total_time * s.frequency < 2147483648
  pub enough_moments : s.total_time * s.frequency ≤ length moments

module _ {W St Act : Type 0} (sensors : List (Sensor W St Act)) (laws : Laws sensors) where
  -- A run that has measured: a header and a line for each round, the code 0, the program that was asked
  -- for, and at the end one call of its cleaner for each source of a state whose arrays fit together.
  pub record Measures (rounds : ℕ) (program : List (List ℕ)) (e : Ending Act) : Type 0 where
    pub lines_ok : length e.lines ≡ suc rounds
    pub code_ok : e.code ≡ 0
    pub application_ok : e.application ≡ some program
    pub last : Moj W St Act
    pub last_ok : IsValid sensors laws last
    pub cleaned_ok : moj_clean last ≡ returns e.cleaned
    pub cleaned_all : length e.cleaned ≡ last.nb_sources
