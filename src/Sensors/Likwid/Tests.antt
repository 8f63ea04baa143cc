-- ===== src/Sensors/Likwid/Tests.antt =====
-- The theorems on src/likwid.c with a concrete library.
use mojit_os.Base.{
  returns, Ensures, ℕ, ◌+◌, ◌*◌, ◌%◌, ◌≡◌, refl, Bool, true, false, none, some, [], ◌∷◌,
}
use mojit_os.Base.Text.{u64_mod, codes}
use mojit_os.Sensors.Likwid.{LikwidStart, LikwidReading, init_likwid, get_likwid}
use mojit_os.Sensors.Likwid.Calls.{unused, domains_left, accepts, session, session-accepts}
use mojit_os.Sensors.Likwid.Labels.{Labelled, init_likwid-Labelled}

-- A library whose results are whole numbers.
abbrev good_start : LikwidStart
good_start = record {
  topology_ok = true;
  apic_ids = 0 ∷ 2 ∷ [];
  perfmon_ok = true;
  group_of = λ args. some 0;
  setup_ok = λ gid. true;
  start_ok = true;
}

abbrev reading_of : Bool → LikwidReading ℕ
reading_of ok = record { read_ok = ok; last_result = λ gid. λ i. λ core. 10 * i + core }

abbrev add_whole : ℕ → ℕ → ℕ
add_whole accu d = (accu + d) % u64_mod

test_labels :
    (init_likwid good_start (some (codes "A,,B"))).1
    ≡ returns (3, record { nbcores = 2; gid = 0; labels = codes "A" ∷ [] ∷ codes "B" ∷ [] })
unfolding init_likwid
test_labels = refl

test_get :
    (get_likwid add_whole
      (reading_of true)
      (record { nbcores = 2; gid = 0; labels = codes "A" ∷ codes "B" ∷ [] })).1
    ≡ returns (1 ∷ 21 ∷ [])
unfolding get_likwid
test_get = refl

init_likwid-Labelled_example :
    Ensures (Labelled (codes "A,B")) (init_likwid good_start (some (codes "A,B"))).1
init_likwid-Labelled_example = init_likwid-Labelled good_start (codes "A,B")

session-accepts_example :
    accepts
      (session add_whole good_start (codes "A,B") (reading_of true ∷ reading_of false ∷ []))
      (some unused)
    ≡ none
session-accepts_example =
    session-accepts add_whole good_start (codes "A,B") (reading_of true ∷ reading_of false ∷ [])

-- A group that cannot be added leaves the affinity domains behind.
test_no_group :
    accepts
      (session add_whole (record good_start { group_of = λ events. none }) (codes "A") [])
      (some unused)
    ≡ some domains_left
unfolding init_likwid
test_no_group = refl
