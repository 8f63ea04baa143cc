-- ===== src/Program/Loop/Rounds.antt =====
-- How often the loop of src/mojitos.c samples, and when.
use mojit_os.Base.{
  ltb, ◌==◌, lt→ltb, Bool-cases, length, returns, Safely, Safely-bind, Safely-mono, ℕ, suc, ◌+◌,
  ◌-◌, ◌*◌, ◌/◌, ◌%◌, ◌^◌, ◌≤◌, ◌<◌, ◌≡◌, refl, sym, ap, ◌∙◌, inl, inr, true, false, List, [], ◌∷◌,
  arith,
}
use mojit_os.Libmojitos.{Sensor, Moj, moj_get_values}
use mojit_os.Libmojitos.Invariant.{Laws, IsValid}
use mojit_os.Libmojitos.Values.{moj_get_values-IsValid}
use mojit_os.Program.Loop.{
  signed_of, Settings, loop_bound, sleep_time, Moment, Effect, one_round, sample_loop, run_main,
}
use native.Mathlib.Nat.{mod-lt, le-div_iff_mul-le, mod-add-mod, mul-mod_left}

-- A frequency that the loop can sleep for: from 1 to a million per second.
abbrev pub IsFrequency : Settings → Type 0
IsFrequency s = (0 < s.frequency) × (s.frequency ≤ 1000000)

sleep_time-returns :
    (frequency tv_nsec : ℕ)
    → 0 < frequency
    → frequency ≤ 1000000
    → sleep_time (signed_of frequency) tv_nsec
      ≡ returns (1000000 / frequency - tv_nsec / 1000 % (1000000 / frequency))
unfolding sleep_time
sleep_time-returns frequency tv_nsec pos le =
    let small : ltb frequency (2 ^ 31) ≡ true = ground arith in
    let some_period : 1 ≤ 1000000 / frequency = (le-div_iff_mul-le pos).1 (omega (arith, le)) in
    let nonzero : (frequency == 0) ≡ false = ground arith in
    let nonzero' : (1000000 / frequency == 0) ≡ false = ground (arith, some_period) in
    rw small (rw (nonzero, nonzero') refl)

-- For a frequency from 1 to 10^6, the loop sleeps a positive time, of one period at most, up to a
-- multiple of the period on the microseconds of the clock's current second.
pub sleep_time_aligned :
    (frequency tv_nsec : ℕ)
    → 0 < frequency
    → frequency ≤ 1000000
    → (sleep : ℕ) × (sleep_time (signed_of frequency) tv_nsec ≡ returns sleep)
      × (0 < sleep)
      × (sleep ≤ 1000000 / frequency)
      × ((tv_nsec / 1000 + sleep) % (1000000 / frequency) ≡ 0)
sleep_time_aligned frequency tv_nsec pos le =
    let some_period : 1 ≤ 1000000 / frequency = (le-div_iff_mul-le pos).1 (omega (arith, le)) in
    (
      1000000 / frequency - tv_nsec / 1000 % (1000000 / frequency),
      sleep_time-returns frequency tv_nsec pos le,
      omega (arith, mod-lt (tv_nsec / 1000) {m = 1000000 / frequency} some_period),
      omega arith,
      aligned (tv_nsec / 1000) (1000000 / frequency) some_period,
    )
  where
    aligned : (t p : ℕ) → 0 < p → (t + (p - t % p)) % p ≡ 0
    aligned t p pos =
        sym (mod-add-mod t p (p - t % p))
        ∙ ap (λ x. x % p) (omega (arith, mod-lt t {m = p} pos))
        ∙ mul-mod_left 1 p

module _ {W St Act : Type 0} (sensors : List (Sensor W St Act)) (laws : Laws sensors) where
  one_round-IsValid :
      (s : Settings) (now : Moment W) (stat_data : ℕ) (m : Moj W St Act)
      → IsFrequency s
      → IsValid sensors laws m
      → Safely
          (λ (r : Effect × ℕ × Moj W St Act). IsValid sensors laws r.2)
          (one_round s now (stat_data, m))
  unfolding one_round
  one_round-IsValid s now stat_data m (pos, le) v =
      Safely-bind (λ (r : Effect × ℕ × Moj W St Act). IsValid sensors laws r.2)
        (IsValid sensors laws) (moj_get_values now.world m) _
        (moj_get_values-IsValid sensors laws now.world m v)
        (λ m' v'. rw (sleep_time-returns s.frequency now.after_output pos le) v')

  -- As many rounds as are left up to the bound, if each round counts.
  sample_loop-counted :
      (s : Settings) (bound temps : ℕ) (moments : List (Moment W)) (stat_data : ℕ)
      (m : Moj W St Act)
      → IsFrequency s
      → s.delta ≡ 1
      → bound ≤ temps + length moments
      → IsValid sensors laws m
      → Safely
          (λ (r : List Effect × Moj W St Act).
            (length r.0 ≡ bound - temps) × IsValid sensors laws r.1)
          (sample_loop s bound temps moments (stat_data, m))
  unfolding sample_loop
  sample_loop-counted s bound temps [] stat_data m f one enough v = (omega arith, v)
  sample_loop-counted s bound temps (now ∷ moments) stat_data m f one enough v =
      elim (Bool-cases (ltb temps bound)) [
        | inl e ↦ rw e (
            Safely-bind _ (λ (r : Effect × ℕ × Moj W St Act). IsValid sensors laws r.2)
              (one_round s now (stat_data, m)) _ (one_round-IsValid s now stat_data m f v)
              (λ a va.
                let next : temps + s.delta ≡ temps + 1 = omega (arith, one) in
                rw next (
                  Safely-bind _ _ (sample_loop s bound (temps + 1) moments (a.1, a.2)) _
                    (sample_loop-counted s bound (temps + 1) moments a.1 a.2 f one (omega arith) va)
                    (λ b hb. (ground (arith, hb.0), hb.1)))))
        | inr e ↦ rw e (ground arith, v)
      ]

  -- A round for each moment, if no round counts.
  sample_loop-endless :
      (s : Settings) (bound : ℕ) (moments : List (Moment W)) (stat_data : ℕ) (m : Moj W St Act)
      → IsFrequency s
      → s.delta ≡ 0
      → 0 < bound
      → IsValid sensors laws m
      → Safely
          (λ (r : List Effect × Moj W St Act).
            (length r.0 ≡ length moments) × IsValid sensors laws r.1)
          (sample_loop s bound 0 moments (stat_data, m))
  unfolding sample_loop
  sample_loop-endless s bound [] stat_data m f none_counts pos v = (refl, v)
  sample_loop-endless s bound (now ∷ moments) stat_data m f none_counts pos v =
      let e : ltb 0 bound ≡ true = ground arith in
      rw e (
        Safely-bind _ (λ (r : Effect × ℕ × Moj W St Act). IsValid sensors laws r.2)
          (one_round s now (stat_data, m)) _ (one_round-IsValid s now stat_data m f v)
          (λ a va.
            let next : 0 + s.delta ≡ 0 = omega (arith, none_counts) in
            rw next (
              Safely-bind _ _ (sample_loop s bound 0 moments (a.1, a.2)) _
                (sample_loop-endless s bound moments a.1 a.2 f none_counts pos va)
                (λ b hb. (ap suc hb.0, hb.1)))))

  -- The bound for a time and a frequency that are positive and whose product is an `int`.
  loop_bound-positive :
      (time frequency : ℕ)
      → time < 2 ^ 31
      → frequency < 2 ^ 31
      → time * frequency < 2147483648
      → loop_bound (signed_of time) (signed_of frequency) ≡ returns (time * frequency)
  unfolding loop_bound
  loop_bound-positive time frequency ht hf hp =
      let t : ltb time (2 ^ 31) ≡ true = lt→ltb time (2 ^ 31) ht in
      let f : ltb frequency (2 ^ 31) ≡ true = lt→ltb frequency (2 ^ 31) hf in
      let below : ltb 2147483648 (time * frequency) ≡ false = ground (arith, hp) in
      let ne : (time * frequency == 2147483648) ≡ false = ground (arith, hp) in
      rw (t, f) (rw (below, ne) refl)

  -- With `-t` and `-f` given as a time and a frequency from 1 to 10^6 whose product is an `int`, and
  -- from a state whose arrays fit together, the loop does exactly `time * frequency` rounds, if the
  -- moments last, and then ends, or a sensor ends the process: nothing is undefined in any round.
  pub run_main-counted :
      (s : Settings) (moments : List (Moment W)) (m : Moj W St Act)
      → IsFrequency s
      → s.delta ≡ 1
      → s.total_time < 2 ^ 31
      → s.total_time * s.frequency < 2147483648
      → s.total_time * s.frequency ≤ length moments
      → IsValid sensors laws m
      → Safely
          (λ (r : List Effect × Moj W St Act).
            (length r.0 ≡ s.total_time * s.frequency) × IsValid sensors laws r.1)
          (run_main s moments m)
  unfolding run_main
  run_main-counted s moments m f one ht hp enough v =
      let bound = s.total_time * s.frequency in
      rw (loop_bound-positive s.total_time s.frequency ht (omega (arith, f.1)) hp) (
        Safely-mono
          (λ (r : List Effect × Moj W St Act). (length r.0 ≡ bound - 0) × IsValid sensors laws r.1)
          (λ (r : List Effect × Moj W St Act). (length r.0 ≡ bound) × IsValid sensors laws r.1)
          (sample_loop s bound 0 moments (0, m)) (λ r h. (omega (arith, h.0), h.1))
          (sample_loop-counted s bound 0 moments 0 m f one (omega (arith, enough)) v))

  -- With `-t 0`, or without `-t`, a frequency from 1 to 10^6, sensors that keep their laws, and from a
  -- state whose arrays fit together, the loop never ends by itself: it does a round for each moment, or
  -- a sensor exits.
  pub run_main-endless :
      (s : Settings) (moments : List (Moment W)) (m : Moj W St Act)
      → IsFrequency s
      → s.total_time ≡ 1
      → s.delta ≡ 0
      → IsValid sensors laws m
      → Safely
          (λ (r : List Effect × Moj W St Act).
            (length r.0 ≡ length moments) × IsValid sensors laws r.1)
          (run_main s moments m)
  unfolding run_main
  run_main-endless s moments m f one none_counts v =
      let product : s.total_time * s.frequency ≡ s.frequency =
        ap (λ t. t * s.frequency) one ∙ omega arith in
      rw
        (loop_bound-positive s.total_time s.frequency (omega (arith, one)) (omega (arith, f.1))
          (omega (arith, product, f.1)))
        (sample_loop-endless s (s.total_time * s.frequency) moments 0 m f none_counts
          (omega (arith, product, f.0)) v)
