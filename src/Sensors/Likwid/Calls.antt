-- ===== src/Sensors/Likwid/Calls.antt =====
-- The order in which src/likwid.c calls the likwid library, when src/mojitos.c drives it: `init_likwid`,
-- a `get_likwid` for each reading, and `clean_likwid`, which the handler of `atexit` calls too.
use mojit_os.Base.{
  if◌then◌else◌, Bool-cases, returns, exits, faults, ℕ, ◌≡◌, refl, ap, ◌∙◌, inl, inr, Bool, true,
  false, ◌&&◌, Option, none, some, List, [], ◌∷◌, ◌++◌, append_assoc,
}
use mojit_os.Sensors.Likwid.{
  LikwidCall, topology_init, affinity_init, hpm_mode, perfmon_init, force, perfmon_add_event_set,
  perfmon_setup_counters, perfmon_start_counters, perfmon_read_counters, perfmon_stop_counters,
  perfmon_finalize, affinity_finalize, topology_finalize, LikwidStart, LikwidReading, Likwid, Trace,
  Traced, traced, event_labels, start_counters_likwid, setup_counters_likwid, is_group,
  start_perfmon, init_likwid, _get_likwid, get_likwid, clean_likwid,
}

-- How far the library is.
pub data Level : Type 0 where
  closed : Level
  topology_up : Level
  perfmon_up : Level
  added : Level
  ready : Level
  counting : Level

-- With it, whether the affinity domains are there.
abbrev pub LibState : Type 0
LibState = Level × Bool

abbrev pub finalized : Level → Bool → Option LibState
finalized closed domains = none
finalized topology_up domains = none
finalized level domains = some (topology_up, domains)

-- What a call asks of the library, and where it leads; a call that fails leads nowhere else. The
-- affinity domains are made and freed once, while the topology is up.
abbrev pub next_state : LikwidCall → Bool → LibState → Option LibState
next_state topology_init ok (closed, domains) = some (if ok then topology_up else closed, domains)
next_state affinity_init ok (topology_up, false) = some (topology_up, true)
next_state hpm_mode ok s = some s
next_state force ok s = some s
next_state (perfmon_init cpus) ok (topology_up, true) =
    some (if ok then perfmon_up else topology_up, true)
next_state (perfmon_add_event_set events) ok (perfmon_up, domains) =
    some (if ok then added else perfmon_up, domains)
next_state (perfmon_setup_counters gid) ok (added, domains) =
    some (if ok then ready else added, domains)
next_state perfmon_start_counters ok (ready, domains) =
    some (if ok then counting else ready, domains)
next_state perfmon_read_counters ok (counting, domains) = some (counting, domains)
next_state perfmon_stop_counters ok (counting, domains) = some (ready, domains)
next_state perfmon_finalize ok (level, domains) = finalized level domains
next_state affinity_finalize ok (topology_up, true) = some (topology_up, false)
next_state topology_finalize ok (topology_up, domains) = some (closed, domains)
next_state call ok s = none

-- Nothing is in use; or nothing but the affinity domains.
abbrev pub unused : LibState
unused = (closed, false)

abbrev pub domains_left : LibState
domains_left = (closed, true)

-- The state behind a trace, if the library allows each of its calls.
abbrev pub accepts : Trace → Option LibState → Option LibState
accepts trace none = none
accepts [] (some s) = some s
accepts ((call, ok) ∷ trace) (some s) = accepts trace (next_state call ok s)

accepts-append : (a b : Trace) (s : Option LibState) → accepts (a ++ b) s ≡ accepts b (accepts a s)
accepts-append a b none = refl
accepts-append [] b (some s) = refl
accepts-append ((call, ok) ∷ a) b (some s) = accepts-append a b (next_state call ok s)

module _ {D : Type 0} (add_double : ℕ → D → ℕ) where
  -- The calls of a run from a started state on. An `exit` runs the cleaner as the end does.
  abbrev pub after_get : Likwid → Traced (List ℕ) → Trace → Trace
  after_get state (calls, returns values) more = calls ++ more
  after_get state (calls, exits code) more = calls ++ clean_likwid state
  after_get state (calls, faults) more = calls

  abbrev pub use_likwid : Likwid → List (LikwidReading D) → Trace
  use_likwid state [] = clean_likwid state
  use_likwid state (r ∷ readings) =
      after_get state (get_likwid add_double r state) (use_likwid state readings)

  -- An `exit` in `init_likwid` ends the trace: `flushexit` then calls no cleaner of this source, since
  -- none is set, and reading it is undefined.
  abbrev pub after_init : Traced (ℕ × Likwid) → List (LikwidReading D) → Trace
  after_init (calls, returns (nb, state)) readings = calls ++ use_likwid state readings
  after_init (calls, exits code) readings = calls
  after_init (calls, faults) readings = calls

  abbrev pub session : LikwidStart → List ℕ → List (LikwidReading D) → Trace
  session lib args readings = after_init (init_likwid lib (some args)) readings

abbrev pub all_read : {D : Type 0} → List (LikwidReading D) → Bool
all_read [] = true
all_read (r ∷ readings) = r.read_ok && all_read readings

abbrev pub set_up : LikwidStart → Option ℕ → Bool
set_up lib none = false
set_up lib (some gid) = lib.setup_ok gid && lib.start_ok

use_likwid-accepts :
    {D : Type 0} (add_double : ℕ → D → ℕ) (state : Likwid) (readings : List (LikwidReading D))
    → accepts (use_likwid add_double state readings) (some (counting, true))
      ≡ (if all_read readings then some unused else none)
unfolding get_likwid _get_likwid clean_likwid
use_likwid-accepts add_double state [] = refl
use_likwid-accepts add_double state (r ∷ readings) = elim (Bool-cases r.read_ok) [
  | inl good ↦ rw good (use_likwid-accepts add_double state readings)
  | inr bad ↦ rw bad refl
]

-- The end of a session whose topology is up: `whole` says whether the start succeeds.
abbrev pub ends_in : Bool → Bool → Option LibState
ends_in false read = some domains_left
ends_in true true = some unused
ends_in true false = none

-- What a session comes to, for the part of the start that is behind the group.
set_up-accepts :
    {D : Type 0} (add_double : ℕ → D → ℕ) (lib : LikwidStart) (labels : List (List ℕ))
    (o : Option ℕ) (readings : List (LikwidReading D))
    → accepts
        (after_init add_double (setup_counters_likwid lib labels o) readings)
        (some (if is_group o then added else perfmon_up, true))
      ≡ ends_in (set_up lib o) (all_read readings)
unfolding setup_counters_likwid start_counters_likwid
set_up-accepts add_double lib labels none readings = refl
set_up-accepts add_double lib labels (some gid) readings = elim (Bool-cases (lib.setup_ok gid)) [
  | inr bad ↦ rw bad refl
  | inl ok ↦ rw ok (elim (Bool-cases lib.start_ok) [
    | inr bad ↦ rw bad refl
    | inl good ↦ rw good (use_likwid-accepts add_double _ readings ∙ same (all_read readings))
  ])
]
  where
    same : (b : Bool) → (if b then some unused else none) ≡ ends_in true b
    same true = refl
    same false = refl

after_init-traced :
    {D : Type 0} (add_double : ℕ → D → ℕ) (calls : Trace) (t : Traced (ℕ × Likwid))
    (readings : List (LikwidReading D))
    → after_init add_double (traced calls t) readings ≡ calls ++ after_init add_double t readings
after_init-traced add_double calls (more, returns (nb, state)) readings =
    append_assoc calls more (use_likwid add_double state readings)
after_init-traced add_double calls (more, exits code) readings = refl
after_init-traced add_double calls (more, faults) readings = refl

-- From a library that is not in use, the calls of a session are each made in a state of the library that
-- allows them, and lead back to one that is not in use, if the topology cannot be read or the start
-- and all readings succeed. If the start fails later, the affinity domains are left behind. If the
-- start succeeds and a reading fails, the library does not allow the calls: `_get_likwid` finalizes it
-- before it exits, and the cleaner at the exit uses it again.
pub session-accepts :
    {D : Type 0} (add_double : ℕ → D → ℕ) (lib : LikwidStart) (args : List ℕ)
    (readings : List (LikwidReading D))
    → accepts (session add_double lib args readings) (some unused) ≡ (
        if lib.topology_ok
        then ends_in (lib.perfmon_ok && set_up lib (lib.group_of args)) (all_read readings)
        else some unused)
unfolding init_likwid start_perfmon
session-accepts add_double lib args readings = elim (Bool-cases lib.topology_ok) [
  | inr down ↦ rw down refl
  | inl up ↦ rw up (elim (Bool-cases lib.perfmon_ok) [
    | inr down ↦ rw down refl
    | inl running ↦ rw running (group (lib.group_of args))
  ])
]
  where
    set_up_calls : Option ℕ → Trace
    set_up_calls o =
        (topology_init, true)
        ∷ (affinity_init, true)
        ∷ (hpm_mode, true)
        ∷ (perfmon_init lib.apic_ids, true)
        ∷ (force, true)
        ∷ (perfmon_add_event_set args, is_group o)
        ∷ []

    group :
        (o : Option ℕ)
        → accepts
            (after_init add_double
              (traced (set_up_calls o) (setup_counters_likwid lib (event_labels [] args) o))
              readings)
            (some unused)
          ≡ ends_in (set_up lib o) (all_read readings)
    group o =
        ap (λ (t : Trace). accepts t (some unused))
          (after_init-traced add_double (set_up_calls o)
            (setup_counters_likwid lib (event_labels [] args) o) readings)
        ∙ accepts-append (set_up_calls o)
            (after_init add_double (setup_counters_likwid lib (event_labels [] args) o) readings)
            (some unused)
        ∙ set_up-accepts add_double lib (event_labels [] args) o readings
