-- ===== src/Sensors/Routes/Ending.antt =====
-- The end of the loop of src/network.c over the route file.
use mojit_os.Base.{
  replicate, length-replicate, Outcome, returns, exits, faults, Ensures, ℕ, zero, suc, ◌<◌, ◌≡◌,
  refl, ap, Bool, true, false, Option, none, some, List, arith,
}
use mojit_os.Sensors.Routes.{
  Reads, Input, next_name, add_device, Run, after_device, after_name, route_loop, first_device,
  route_buffer, enough, route_search, settle, read_routes,
}
use mojit_os.Sensors.Routes.Moves.{IsInput, unseen, Advances, next_name-Advances}

-- A run that has ended with enough fuel.
abbrev pub Ended : Run (List (List ℕ)) → Type 0
Ended run = (o : Outcome (List (List ℕ))) × (run ≡ some o)

after_device-Ended :
    (loop : List (List ℕ) → Run (List (List ℕ))) (r : Outcome (Bool × List (List ℕ)))
    → ((devs : List (List ℕ)) → Ended (loop devs))
    → Ended (after_device loop r)
unfolding after_device
after_device-Ended loop (returns (true, devs)) h = h devs
after_device-Ended loop (returns (false, devs)) h = (returns devs, refl)
after_device-Ended loop (exits code) h = (exits code, refl)
after_device-Ended loop faults h = (faults, refl)

after_name-Ended :
    (loop : ℕ → Input → List (List ℕ) → Run (List (List ℕ))) (devs : List (List ℕ)) (input : Input)
    (s : ℕ) (r : Outcome (Option (ℕ × ℕ) × Input))
    → Ensures (Advances input s) r
    → ((s' : ℕ) (input' : Input) (devs' : List (List ℕ))
        → IsInput input'
        → s' < route_buffer
        → unseen input' s' < unseen input s
        → Ended (loop s' input' devs'))
    → Ended (after_name loop devs r)
unfolding after_name
after_name-Ended loop devs input s (returns (none, input')) h k = (returns devs, refl)
after_name-Ended loop devs input s (returns (some (start, s'), input')) (same, small, less) k =
    after_device-Ended (loop s' input') (add_device input'.buffer start s' devs)
      (λ devs'. k s' input' devs' same small less)
after_name-Ended loop devs input s (exits code) h k = (exits code, refl)
after_name-Ended loop devs input s faults h k = (faults, refl)

route_loop-Ended :
    (fuel s : ℕ) (input : Input) (devs : List (List ℕ))
    → IsInput input
    → s < route_buffer
    → unseen input s < fuel
    → Ended (route_loop fuel route_buffer s input devs)
unfolding route_loop
route_loop-Ended zero s input devs h hs f = absurd (omega arith)
route_loop-Ended (suc fuel) s input devs h hs f =
    after_name-Ended _ devs input s (next_name route_buffer s input)
      (next_name-Advances s input h hs)
      (λ s' input' devs' same small less.
        route_loop-Ended fuel s' input' devs' same small (omega (arith, less, f)))

first_device-Ended :
    (fuel : ℕ) (input : Input) (s : ℕ) (r : Outcome (Option (ℕ × ℕ) × Input))
    → Ensures (Advances input s) r
    → unseen input s < fuel
    → Ended (first_device fuel route_buffer r)
unfolding first_device
first_device-Ended fuel input s (returns (none, input')) h f = (exits 1, refl)
first_device-Ended fuel input s (returns (some (start, s'), input')) (same, small, less) f =
    after_device-Ended (route_loop fuel route_buffer s' input') _
      (λ devs. route_loop-Ended fuel s' input' devs same small (omega (arith, less, f)))
first_device-Ended fuel input s (exits code) h f = (exits code, refl)
first_device-Ended fuel input s faults h f = (faults, refl)

route_search-Ended : (reads : Reads) → Ended (route_search (enough reads) reads)
unfolding route_search
route_search-Ended reads =
    let start : Input = record { reads = reads; buffer = replicate route_buffer 0 } in
    let same : IsInput start = length-replicate {A = ℕ} route_buffer 0 in
    first_device-Ended (enough reads) start 0 (next_name route_buffer 0 start)
      (next_name-Advances 0 start same (omega arith)) (omega arith)

-- For any results of the reads of the route file, the search of `init_network` for devices ends: a round
-- for each byte of the buffer and of the reads is enough fuel, so that an undefined behaviour of
-- `read_routes` is one of the source.
pub read_routes-Ended :
    (reads : Reads)
    → (o : Outcome (List (List ℕ))) × (route_search (enough reads) reads ≡ some o)
      × (read_routes reads ≡ o)
unfolding read_routes
read_routes-Ended reads = let (o, e) = route_search-Ended reads in (o, e, ap settle e)
