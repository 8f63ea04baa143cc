-- ===== src/Sensors/Likwid/Labels.antt =====
-- The labels of src/likwid.c and the string of events.
use mojit_os.Base.{
  ◌==◌, ==_iff, Bool-cases, length, All, All-append, Ensures, ℕ, ◌≡◌, refl, ap, ◌∙◌, inl, inr,
  false, Option, none, some, List, [], ◌∷◌, ◌++◌, append_assoc,
}
use mojit_os.Sensors.Likwid.{
  LikwidStart, Likwid, event_labels, start_counters_likwid, setup_counters_likwid, start_perfmon,
  init_likwid, label_likwid,
}

-- Each label behind a comma.
abbrev pub behind_commas : List (List ℕ) → List ℕ
behind_commas [] = []
behind_commas (label ∷ labels) = b',' ∷ (label ++ behind_commas labels)

-- The labels with commas between them.
abbrev pub join_events : List (List ℕ) → List ℕ
join_events [] = []
join_events (label ∷ labels) = label ++ behind_commas labels

abbrev pub NoComma : List ℕ → Type 0
NoComma = All (λ (b : ℕ). (b == b',') ≡ false)

event_labels-behind_commas :
    (events label : List ℕ) → behind_commas (event_labels label events) ≡ b',' ∷ (label ++ events)
unfolding event_labels
event_labels-behind_commas [] label = refl
event_labels-behind_commas (c ∷ events) label = elim (Bool-cases (c == b',')) [
  | inl comma ↦
      let e : c ≡ b',' = (==_iff c b',').0 comma in
      rw comma (rw e (ap (λ l. b',' ∷ (label ++ l)) (event_labels-behind_commas events [])))
  | inr other ↦ rw other (
      event_labels-behind_commas events (label ++ (c ∷ []))
      ∙ ap (λ l. b',' ∷ l) (append_assoc label (c ∷ []) events))
]

behind_commas-join :
    (labels : List (List ℕ)) (s : List ℕ) → behind_commas labels ≡ b',' ∷ s → join_events labels ≡ s
behind_commas-join [] s h = cc
behind_commas-join (label ∷ labels) s h = cc

event_labels-NoComma :
    (events label : List ℕ) → NoComma label → All NoComma (event_labels label events)
unfolding event_labels
event_labels-NoComma [] label h = (h, tt)
event_labels-NoComma (c ∷ events) label h = elim (Bool-cases (c == b',')) [
  | inl comma ↦ rw comma ((h, event_labels-NoComma events [] tt))
  | inr other ↦ rw other (
      event_labels-NoComma events (label ++ (c ∷ []))
        (All-append (λ (b : ℕ). (b == b',') ≡ false) label (c ∷ []) h (other, tt)))
]

-- The labels, their number and their commas, of a start with these events.
pub record Labelled (args : List ℕ) (r : ℕ × Likwid) : Type 0 where
  pub joined : join_events (label_likwid r.1) ≡ args
  pub parts : All NoComma (label_likwid r.1)
  pub count : r.0 ≡ length (label_likwid r.1)

-- For any events, an `init_likwid` that returns has as labels the parts between their commas: joined with
-- commas they are the events again, and none holds a comma; it returns the number of labels.
pub init_likwid-Labelled :
    (lib : LikwidStart) (args : List ℕ) → Ensures (Labelled args) (init_likwid lib (some args)).1
unfolding init_likwid start_perfmon setup_counters_likwid start_counters_likwid label_likwid
init_likwid-Labelled lib args = elim (Bool-cases lib.topology_ok) [
  | inr down ↦ rw down tt
  | inl up ↦ rw up (elim (Bool-cases lib.perfmon_ok) [
    | inr down ↦ rw down tt
    | inl running ↦ rw running (set_up (lib.group_of args))
  ])
]
  where
    all_labels :
        (gid : ℕ)
        → Labelled args (
          length (event_labels [] args),
          record { nbcores = length lib.apic_ids; gid = gid; labels = event_labels [] args },
        )
    all_labels gid = record {
      joined = behind_commas-join (event_labels [] args) args (event_labels-behind_commas args []);
      parts = event_labels-NoComma args [] tt;
      count = refl;
    }

    set_up :
        (o : Option ℕ)
        → Ensures (Labelled args) (setup_counters_likwid lib (event_labels [] args) o).1
    set_up none = tt
    set_up (some gid) = elim (Bool-cases (lib.setup_ok gid)) [
      | inr bad ↦ rw bad tt
      | inl ok ↦ rw ok (elim (Bool-cases lib.start_ok) [
        | inr bad ↦ rw bad tt
        | inl good ↦ rw good (all_labels gid)
      ])
    ]
