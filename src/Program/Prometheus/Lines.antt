-- ===== src/Program/Prometheus/Lines.antt =====
-- The lines that src/prometheus_manager.c prints in a round, and their buffer.
use mojit_os.Base.{
  ◌==◌, if◌then◌else◌, Bool-cases, length, length-append, is_empty, Outcome, returns, ℕ, ◌+◌, ◌^◌,
  ◌≤◌, ◌<◌, ◌≡◌, refl, sym, ap, ◌∙◌, inl, inr, false, List, [], ◌∷◌, ◌++◌, append-nil, append_assoc,
  arith,
}
use mojit_os.Base.Text.{codes, decimal, decimal-short}
use mojit_os.Program.Prometheus.{Exporter, line_of, grow, print_values, use_manager_prometheus}
use mojit_os.Program.Prometheus.Room.{
  Event, sample, request, value_lines, event_lines, concat, concat-append, HasRoom, print_line-fits,
  line_step, IsMeasured,
}
use mojit_os.Sensors.Deltas.{IsU64}

length-line_of :
    (label : List ℕ) (v timer : ℕ)
    → IsU64 v
    → IsU64 timer
    → length (line_of label v timer) ≤ length label + 43
length-line_of label v timer hv ht = omega (
  arith,
  length-append label (b' ' ∷ (decimal v ++ (b' ' ∷ (decimal timer ++ (10 ∷ []))))),
  length-append (decimal v) (b' ' ∷ (decimal timer ++ (10 ∷ []))),
  length-append (decimal timer) (10 ∷ []),
  decimal-short v hv,
  decimal-short timer ht,
)

-- What a loop over lines does to an exporter.
pub record Adds (k : ℕ) (run : Outcome Exporter) (e : Exporter) (text : List ℕ) : Type 0 where
  pub next : Exporter
  pub ends : run ≡ returns next
  pub page : next.page ≡ e.page ++ text
  pub roomy : HasRoom k next

print_values-Adds :
    (timer : ℕ) (labels : List (List ℕ)) (values : List ℕ) (e : Exporter)
    → HasRoom 128 e
    → IsU64 timer
    → IsMeasured labels values
    → length e.page + length (concat (value_lines timer labels values)) + 128 < 2 ^ 31
    → Adds 128 (print_values timer labels values e) e (concat (value_lines timer labels values))
unfolding print_values
print_values-Adds timer labels [] e roomy ht h small = record {
  next = e;
  ends = refl;
  page = sym (append-nil e.page);
  roomy = roomy;
}
print_values-Adds timer [] (v ∷ values) e roomy ht h small = absurd h
print_values-Adds timer (label ∷ labels) (v ∷ values) e roomy ht (short, hv, h) small =
    let text = line_of label v timer in
    let more = concat (value_lines timer labels values) in
    let long = length-append text more in
    let (run, page, room) =
      line_step 128 text e roomy (omega (arith, length-line_of label v timer hv ht, short))
        (omega (arith, small, long)) in
    let e' = grow (record e { page = e.page ++ text }) in
    let rest =
      print_values-Adds timer labels values e' room ht h
        (omega (arith, ap length page, length-append e.page text, small, long)) in
    record {
      next = rest.next;
      ends = rw run rest.ends;
      page = rest.page ∙ ap (λ l. l ++ more) page ∙ append_assoc e.page text more;
      roomy = rest.roomy;
    }

HasRoom-less : (j k : ℕ) (e : Exporter) → j ≤ k → HasRoom k e → HasRoom j e
HasRoom-less j k e le h = record { room = omega (arith, h.room, le); big = h.big; size = h.size }

-- The first line has less room, and is followed by a growth.
first_values-Adds :
    (timer : ℕ) (labels : List (List ℕ)) (values : List ℕ) (e : Exporter)
    → HasRoom 77 e
    → is_empty values ≡ false
    → IsU64 timer
    → IsMeasured labels values
    → length e.page + length (concat (value_lines timer labels values)) + 128 < 2 ^ 31
    → Adds 128 (print_values timer labels values e) e (concat (value_lines timer labels values))
unfolding print_values
first_values-Adds timer labels [] e roomy some_value ht h small = absurd cc
first_values-Adds timer [] (v ∷ values) e roomy some_value ht h small = absurd h
first_values-Adds timer (label ∷ labels) (v ∷ values) e roomy some_value ht (short, hv, h) small =
    let text = line_of label v timer in
    let more = concat (value_lines timer labels values) in
    let long = length-append text more in
    let (run, page, room) =
      line_step 77 text e roomy (omega (arith, length-line_of label v timer hv ht, short))
        (omega (arith, small, long)) in
    let e' = grow (record e { page = e.page ++ text }) in
    let rest =
      print_values-Adds timer labels values e' room ht h
        (omega (arith, ap length page, length-append e.page text, small, long)) in
    record {
      next = rest.next;
      ends = rw run rest.ends;
      page = rest.page ∙ ap (λ l. l ++ more) page ∙ append_assoc e.page text more;
      roomy = rest.roomy;
    }

-- A round with at least one value, short labels and 64-bit numbers; or a request.
abbrev pub IsOrdinary : List (List ℕ) → Event → Type 0
IsOrdinary labels (sample timer values stat_data) =
    (is_empty values ≡ false) × IsU64 timer × IsMeasured labels values × IsU64 stat_data
IsOrdinary labels (request get seen) = Unit

overhead_line : (timer stat_data : ℕ) → List (List ℕ)
overhead_line timer stat_data =
    if stat_data == 0 then [] else line_of (codes "overhead") stat_data timer ∷ []

pub use_manager_prometheus-Adds :
    (timer : ℕ) (labels : List (List ℕ)) (values : List ℕ) (stat_data : ℕ) (e : Exporter)
    → HasRoom 77 e
    → IsOrdinary labels (sample timer values stat_data)
    → length e.page + length (concat (event_lines labels (sample timer values stat_data))) + 128
      < 2 ^ 31
    → Adds 77
        (use_manager_prometheus labels timer values stat_data e)
        e
        (concat (event_lines labels (sample timer values stat_data)))
unfolding use_manager_prometheus
use_manager_prometheus-Adds timer labels values stat_data e roomy (some_value, ht, h, hs) small =
    let lines = value_lines timer labels values in
    elim (Bool-cases (stat_data == 0)) [
      | inl c ↦
          let same = concat-append lines [] in
          let adds =
            first_values-Adds timer labels values e roomy some_value ht h (
              omega
                (arith, ap length (append-nil (concat lines)), ap length same, rw c at small)) in
          rw c (record {
            next = adds.next;
            ends = rw adds.ends refl;
            page = adds.page ∙ ap (λ l. e.page ++ l) (sym (same ∙ append-nil (concat lines)));
            roomy = HasRoom-less 77 128 adds.next (omega arith) adds.roomy;
          })
      | inr c ↦
          let text = line_of (codes "overhead") stat_data timer in
          let same =
            concat-append lines (text ∷ []) ∙ ap (λ l. concat lines ++ l) (append-nil text) in
          let short = length-line_of (codes "overhead") stat_data timer hs ht in
          let long = length-append (concat lines) text in
          let adds =
            first_values-Adds timer labels values e roomy some_value ht h
              (omega (arith, ap length same, long, rw c at small)) in
          rw c (record {
            next = record adds.next { page = adds.next.page ++ text };
            ends =
                rw adds.ends (print_line-fits 128 text adds.next adds.roomy (omega (arith, short)));
            page =
                ap (λ l. l ++ text) adds.page
                ∙ append_assoc e.page (concat lines) text
                ∙ ap (λ l. e.page ++ l) (sym same);
            roomy = record {
              room = omega (arith, adds.roomy.room, short, length-append adds.next.page text);
              big = adds.roomy.big;
              size = adds.roomy.size;
            };
          })
    ]
