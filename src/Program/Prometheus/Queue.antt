-- ===== src/Program/Prometheus/Queue.antt =====
-- The lines of src/prometheus_manager.c from the rounds to the requests.
use mojit_os.Base.{
  length, All, length-append, Outcome, returns, ◌>>=◌, ℕ, ◌+◌, ◌^◌, ◌<◌, ◌≡◌, refl, sym, ap, ◌∙◌,
  true, false, List, [], ◌∷◌, ◌++◌, append-nil, append_assoc, arith,
}
use mojit_os.Program.Prometheus.{
  Exporter, init_manager_prometheus, use_manager_prometheus, refuse, proceed, respond,
  internal_server,
}
use mojit_os.Program.Prometheus.Lines.{IsOrdinary, use_manager_prometheus-Adds}
use mojit_os.Program.Prometheus.Room.{
  Event, sample, request, event_lines, concat, all_lines, concat-append, HasRoom,
}

-- One event: what is served, and the exporter after it.
abbrev pub happen : List (List ℕ) → Event → Exporter → Outcome (List ℕ × Exporter)
happen labels (sample timer values stat_data) e = do
  e' ← use_manager_prometheus labels timer values stat_data e
  returns ([], e')
happen labels (request get seen) e =
    let (answer, e') = internal_server get seen e in
    returns ((elim answer [ refuse ↦ [] | proceed ↦ [] | respond page ↦ page ]), e')

-- All that is served, one answer after the other.
abbrev pub happen_all : List (List ℕ) → List Event → Exporter → Outcome (List ℕ × Exporter)
happen_all labels [] e = returns ([], e)
happen_all labels (event ∷ events) e = do
  (served, e') ← happen labels event e
  (more, e'') ← happen_all labels events e'
  returns (served ++ more, e'')

-- What events do: they end, nothing is lost, and there is room for the next round.
record Serves (run : Outcome (List ℕ × Exporter)) (before : List ℕ) (text : List ℕ) : Type 0 where
  served : List ℕ
  next : Exporter
  ends : run ≡ returns (served, next)
  whole : served ++ next.page ≡ before ++ text
  roomy : HasRoom 77 next

happen-Serves :
    (labels : List (List ℕ)) (event : Event) (e : Exporter)
    → HasRoom 77 e
    → IsOrdinary labels event
    → length e.page + length (concat (event_lines labels event)) + 128 < 2 ^ 31
    → Serves (happen labels event e) e.page (concat (event_lines labels event))
happen-Serves labels (sample timer values stat_data) e roomy h small =
    let adds = use_manager_prometheus-Adds timer labels values stat_data e roomy h small in
    record {
      served = [];
      next = adds.next;
      ends = rw adds.ends refl;
      whole = adds.page;
      roomy = adds.roomy;
    }
happen-Serves labels (request false seen) e roomy h small =
    unfold internal_server in
    record { served = []; next = e; ends = refl; whole = sym (append-nil e.page); roomy = roomy }
happen-Serves labels (request true false) e roomy h small =
    unfold internal_server in
    record { served = []; next = e; ends = refl; whole = sym (append-nil e.page); roomy = roomy }
happen-Serves labels (request true true) e roomy h small =
    unfold internal_server in
    record {
      served = e.page;
      next = record e { page = [] };
      ends = refl;
      whole = refl;
      roomy = record { room = omega (arith, roomy.room); big = roomy.big; size = roomy.size };
    }

happen_all-Serves :
    (labels : List (List ℕ)) (events : List Event) (e : Exporter)
    → HasRoom 77 e
    → All (IsOrdinary labels) events
    → length e.page + length (concat (all_lines labels events)) + 128 < 2 ^ 31
    → Serves (happen_all labels events e) e.page (concat (all_lines labels events))
happen_all-Serves labels [] e roomy h small = record {
  served = [];
  next = e;
  ends = refl;
  whole = sym (append-nil e.page);
  roomy = roomy;
}
happen_all-Serves labels (event ∷ events) e roomy (h, hs) small =
    let now = concat (event_lines labels event) in
    let later = concat (all_lines labels events) in
    let split = concat-append (event_lines labels event) (all_lines labels events) in
    let long = length-append now later in
    let first =
      happen-Serves labels event e roomy h (omega (arith, small, ap length split, long)) in
    let kept = ap length first.whole in
    let rest = happen_all-Serves labels events first.next first.roomy hs (
      omega (
        arith,
        small,
        ap length split,
        long,
        kept,
        length-append first.served first.next.page,
        length-append e.page now,
      )) in
    record {
      served = first.served ++ rest.served;
      next = rest.next;
      ends = rw first.ends (rw rest.ends refl);
      whole =
          append_assoc first.served rest.served rest.next.page
          ∙ ap (λ l. first.served ++ l) rest.whole
          ∙ sym (append_assoc first.served first.next.page later)
          ∙ ap (λ l. l ++ later) first.whole
          ∙ append_assoc e.page now later
          ∙ ap (λ l. e.page ++ l) (sym split);
      roomy = rest.roomy;
    }

-- However the rounds of the program and the requests follow each other, when labels have 34 bytes at
-- most, each round has a value, the numbers are 64 bits wide and fewer than 2^31 bytes are printed in
-- all: no line is written outside of the buffer, and what the requests were answered, in order, and
-- what still waits are together the lines of all rounds, in order, none lost and none served twice.
pub happen_all-all_lines :
    (labels : List (List ℕ)) (events : List Event)
    → All (IsOrdinary labels) events
    → length (concat (all_lines labels events)) + 128 < 2 ^ 31
    → (start : Exporter) × (init_manager_prometheus true ≡ returns start)
      × (served : List ℕ) × (e : Exporter) × (happen_all labels events start ≡ returns (served, e))
      × (served ++ e.page ≡ concat (all_lines labels events))
unfolding init_manager_prometheus
happen_all-all_lines labels events h small =
    let start : Exporter = record { page = []; current_size = 1024 } in
    let s =
      happen_all-Serves labels events start
        (record { room = omega arith; big = omega arith; size = omega arith }) h
        (omega (arith, small)) in
    (start, refl, s.served, s.next, s.ends, s.whole)
