-- ===== src/Program/Prometheus/Room.antt =====
-- The lines of src/prometheus_manager.c, and the room that `grow` makes for them.
use mojit_os.Base.{
  ltb, leb, ◌==◌, if◌then◌else◌, Bool-cases, length, length-append, returns, ℕ, ◌+◌, ◌^◌, ◌≤◌, ◌<◌,
  ◌≡◌, refl, sym, ap, ◌∙◌, inl, inr, Bool, false, List, [], ◌∷◌, ◌++◌, append_assoc, arith,
}
use mojit_os.Base.Text.{codes}
use mojit_os.Program.Prometheus.{Exporter, line_of, print_line, grow}
use mojit_os.Sensors.Deltas.{IsU64}

-- What happens to the exporter: a round of the program, or a call of the server.
pub data Event : Type 0 where
  sample : ℕ → List ℕ → ℕ → Event
  request : Bool → Bool → Event

-- The lines of a round.
abbrev pub value_lines : ℕ → List (List ℕ) → List ℕ → List (List ℕ)
value_lines timer labels [] = []
value_lines timer [] (v ∷ values) = []
value_lines timer (label ∷ labels) (v ∷ values) =
    line_of label v timer ∷ value_lines timer labels values

abbrev pub event_lines : List (List ℕ) → Event → List (List ℕ)
event_lines labels (sample timer values stat_data) =
    value_lines timer labels values
    ++ (if stat_data == 0 then [] else line_of (codes "overhead") stat_data timer ∷ [])
event_lines labels (request get seen) = []

abbrev pub concat : List (List ℕ) → List ℕ
concat [] = []
concat (l ∷ lines) = l ++ concat lines

abbrev pub all_lines : List (List ℕ) → List Event → List (List ℕ)
all_lines labels [] = []
all_lines labels (event ∷ events) = event_lines labels event ++ all_lines labels events

pub concat-append : (a b : List (List ℕ)) → concat (a ++ b) ≡ concat a ++ concat b
concat-append [] b = refl
concat-append (l ∷ a) b =
    ap (λ t. l ++ t) (concat-append a b) ∙ sym (append_assoc l (concat a) (concat b))

-- There is room for a line of `k` bytes, and the size is in the range of `unsigned int`.
pub record HasRoom (k : ℕ) (e : Exporter) : Type 0 where
  pub room : length e.page + k ≤ e.current_size
  pub big : 128 < e.current_size
  pub size : e.current_size < 2 ^ 32

pub print_line-fits :
    (k : ℕ) (text : List ℕ) (e : Exporter)
    → HasRoom k e
    → length text ≤ k
    → print_line text e ≡ returns (record e { page = e.page ++ text })
unfolding print_line
print_line-fits k text e roomy short =
    let fits : ltb e.current_size (length e.page + length text) ≡ false =
      ground (arith, roomy.room, short) in
    rw fits refl

grow-page : (e : Exporter) → (grow e).page ≡ e.page
unfolding grow
grow-page e = elim (Bool-cases (leb e.current_size (length e.page + 128))) [
  | inl c ↦ rw c refl
  | inr c ↦ rw c refl
]

-- Behind a growth there is room for 128 bytes.
grow-HasRoom :
    (e : Exporter)
    → length e.page ≤ e.current_size
    → 128 < e.current_size
    → e.current_size < 2 ^ 32
    → length e.page + 128 < 2 ^ 31
    → HasRoom 128 (grow e)
unfolding grow
grow-HasRoom e fits big size small = elim (Bool-cases (leb e.current_size (length e.page + 128))) [
  | inl c ↦ rw c (record { room = ground arith; big = ground arith; size = ground arith })
  | inr c ↦ rw c (record { room = ground arith; big = ground arith; size = ground arith })
]

-- One line and the growth behind it.
pub line_step :
    (k : ℕ) (text : List ℕ) (e : Exporter)
    → HasRoom k e
    → length text ≤ k
    → length e.page + length text + 128 < 2 ^ 31
    → let e' = grow (record e { page = e.page ++ text }) in
      (print_line text e ≡ returns (record e { page = e.page ++ text }))
      × (e'.page ≡ e.page ++ text)
      × HasRoom 128 e'
line_step k text e roomy short small =
    let long = length-append e.page text in
    (
      print_line-fits k text e roomy short,
      grow-page (record e { page = e.page ++ text }),
      grow-HasRoom (record e { page = e.page ++ text }) (omega (arith, long, roomy.room, short))
          roomy.big roomy.size (omega (arith, long, small)),
    )

-- The labels are short, there is one for each value, and the numbers are uint64_t.
abbrev pub IsMeasured : List (List ℕ) → List ℕ → Type 0
IsMeasured labels [] = Unit
IsMeasured [] (v ∷ values) = ⊥
IsMeasured (label ∷ labels) (v ∷ values) = (length label ≤ 34) × IsU64 v × IsMeasured labels values
