-- ===== src/Sensors/Likwid.antt =====
-- src/likwid.c: events counted through the likwid library, which is a parameter.
mod Labels
mod Calls
mod Tests
use mojit_os.Base.{
  ◌==◌, if◌then◌else◌, length, Outcome, returns, exits, faults, ℕ, zero, suc, ◌+◌, Bool, true,
  false, Option, none, some, List, [], ◌∷◌, ◌++◌,
}

-- The calls of the library, and of the environment, that the source makes.
pub data LikwidCall : Type 0 where
  topology_init : LikwidCall
  affinity_init : LikwidCall
  hpm_mode : LikwidCall
  perfmon_init : List ℕ → LikwidCall
  force : LikwidCall
  perfmon_add_event_set : List ℕ → LikwidCall
  perfmon_setup_counters : ℕ → LikwidCall
  perfmon_start_counters : LikwidCall
  perfmon_read_counters : LikwidCall
  perfmon_stop_counters : LikwidCall
  perfmon_finalize : LikwidCall
  affinity_finalize : LikwidCall
  topology_finalize : LikwidCall

-- What the library answers at the start: whether a call gives no negative number, the `apicId` of each
-- hardware thread, and the group of the events, `none` if it is negative.
pub record LikwidStart : Type 0 where
  pub topology_ok : Bool
  pub apic_ids : List ℕ
  pub perfmon_ok : Bool
  pub group_of : List ℕ → Option ℕ
  pub setup_ok : ℕ → Bool
  pub start_ok : Bool

-- What it answers in one reading: a `double` for a group, an event and a core. `D` is the type `double`,
-- and `add_double` is `accu += …` on a uint64_t.
pub record LikwidReading (D : Type 0) : Type 0 where
  pub read_ok : Bool
  pub last_result : ℕ → ℕ → ℕ → D

-- `nbperf` is the length of `labels`.
pub record Likwid : Type 0 where
  pub nbcores : ℕ
  pub gid : ℕ
  pub labels : List (List ℕ)

-- The calls in order, and whether each gives no negative number.
abbrev pub Trace : Type 0
Trace = List (LikwidCall × Bool)

-- A result, behind the calls made on the way to it.
abbrev pub Traced : Type 0 → Type 0
Traced A = Trace × Outcome A

abbrev pub traced : {A : Type 0} → Trace → Traced A → Traced A
traced calls (more, result) = (calls ++ more, result)

-- The loop over the events: `label` is the part of the current event that was read, up to a comma.
unfoldable pub event_labels : List ℕ → List ℕ → List (List ℕ)
event_labels label [] = label ∷ []
event_labels label (c ∷ events) =
    let next = event_labels [] events in
    let more = event_labels (label ++ (c ∷ [])) events in if c == b',' then label ∷ next else more

abbrev pub close_perfmon : Trace
close_perfmon = (perfmon_finalize, true) ∷ (topology_finalize, true) ∷ []

-- The end of `init_likwid`.
unfoldable pub start_counters_likwid : LikwidStart → ℕ → List (List ℕ) → Traced (ℕ × Likwid)
start_counters_likwid lib gid labels =
    if lib.start_ok
    then (
      (perfmon_start_counters, true) ∷ [],
      returns (length labels, record { nbcores = length lib.apic_ids; gid = gid; labels = labels }),
    )
    else ((perfmon_start_counters, false) ∷ close_perfmon, exits 1)

unfoldable pub setup_counters_likwid : LikwidStart → List (List ℕ) → Option ℕ → Traced (ℕ × Likwid)
unfolding start_counters_likwid
setup_counters_likwid lib labels none = (close_perfmon, exits 1)
setup_counters_likwid lib labels (some gid) =
    if lib.setup_ok gid
    then traced ((perfmon_setup_counters gid, true) ∷ []) (start_counters_likwid lib gid labels)
    else ((perfmon_setup_counters gid, false) ∷ close_perfmon, exits 1)

abbrev pub is_group : Option ℕ → Bool
is_group none = false
is_group (some gid) = true

-- From `affinity_init` on.
unfoldable pub start_perfmon : LikwidStart → List ℕ → Traced (ℕ × Likwid)
unfolding setup_counters_likwid event_labels
start_perfmon lib args =
    let opening = (affinity_init, true) ∷ (hpm_mode, true) ∷ [] in
    if lib.perfmon_ok
    then traced
        (opening
          ++ ((perfmon_init lib.apic_ids, true)
              ∷ (force, true)
              ∷ (perfmon_add_event_set args, is_group (lib.group_of args))
              ∷ []))
        (setup_counters_likwid lib (event_labels [] args) (lib.group_of args))
    else (opening ++ ((perfmon_init lib.apic_ids, false) ∷ (topology_finalize, true) ∷ []), exits 1)

-- A NULL argument is read.
unfoldable pub init_likwid : LikwidStart → Option (List ℕ) → Traced (ℕ × Likwid)
unfolding start_perfmon
init_likwid lib none = ([], faults)
init_likwid lib (some args) =
    if lib.topology_ok
    then traced ((topology_init, true) ∷ []) (start_perfmon lib args)
    else ((topology_init, false) ∷ [], exits 1)

module _ {D : Type 0} (add_double : ℕ → D → ℕ) where
  -- `accu` over the cores from `core` on, `left` of them.
  unfoldable pub sum_likwid : LikwidReading D → ℕ → ℕ → ℕ → ℕ → ℕ → ℕ
  sum_likwid lib gid i core zero accu = accu
  sum_likwid lib gid i core (suc left) accu =
      sum_likwid lib gid i (core + 1) left (add_double accu (lib.last_result gid i core))

  -- The values from the event `i` on, for the labels that are left.
  unfoldable pub values_likwid : LikwidReading D → Likwid → ℕ → List (List ℕ) → List ℕ
  unfolding sum_likwid
  values_likwid lib likwid i [] = []
  values_likwid lib likwid i (label ∷ labels) =
      sum_likwid lib likwid.gid i 0 likwid.nbcores 0 ∷ values_likwid lib likwid (i + 1) labels

  unfoldable pub _get_likwid : LikwidReading D → Likwid → Traced (List ℕ)
  unfolding values_likwid
  _get_likwid lib likwid =
      if lib.read_ok
      then ((perfmon_read_counters, true) ∷ [], returns (values_likwid lib likwid 0 likwid.labels))
      else ((perfmon_read_counters, false) ∷ close_perfmon, exits 1)

  -- The return value is `nbperf`; here it is the length of the results.
  unfoldable pub get_likwid : LikwidReading D → Likwid → Traced (List ℕ)
  unfolding _get_likwid
  get_likwid lib state = _get_likwid lib state

unfoldable pub label_likwid : Likwid → List (List ℕ)
label_likwid state = state.labels

unfoldable pub clean_likwid : Likwid → Trace
clean_likwid likwid =
    (perfmon_stop_counters, true)
    ∷ (perfmon_finalize, true)
    ∷ (affinity_finalize, true)
    ∷ (topology_finalize, true)
    ∷ []
