-- ===== src/Sensors/Disk/Totals.antt =====
-- The sums of what src/disk.c reports, and what its start leaves behind.
use mojit_os.Base.{
  ltb, leb, length, All, length-append, All-append, Outcome, returns, exits, faults, Ensures,
  Ensures-bind, Ensures-if, ℕ, zero, suc, ◌+◌, ◌-◌, ◌*◌, ◌%◌, ◌≡◌, refl, sym, ap, ◌∙◌, ◌&&◌, Option,
  none, some, List, [], ◌∷◌, arith,
}
use mojit_os.Base.Text.{u64_mod}
use mojit_os.Sensors.Deltas.{IsU64, add_into, add_into-deltas, run, run_total, differences-deltas}
use mojit_os.Sensors.Disk.{
  disk_values_size, Disk, read_ints, read_disk, _get_disk, after_last_slash, stat_path, add_disk,
  add_disks, start_disk, init_disk, get_disk,
}
use mojit_os.Sensors.Reading.{Files, pread_into}
use mojit_os.Util.{skip_to_digit, read_digits, read_int}
use mathlib.Core.List.{foldl}

-- The loop of `read_int` and each of its parts give a uint64_t.
read_digits-IsU64 :
    (val : ℕ) (s : List ℕ) → IsU64 val → Ensures (λ (r : ℕ × List ℕ). IsU64 r.0) (read_digits val s)
unfolding read_digits
read_digits-IsU64 val [] h = tt
read_digits-IsU64 val (c ∷ s) h =
    Ensures-if (λ (r : ℕ × List ℕ). IsU64 r.0) (leb c b'9' && leb b'0' c) _ _
      (read_digits-IsU64 ((val * 10 + (c - b'0')) % u64_mod) s (omega arith)) h

read_int-IsU64 : (s : List ℕ) → Ensures (λ (r : ℕ × List ℕ). IsU64 r.0) (read_int s)
unfolding read_int
read_int-IsU64 s =
    Ensures-bind _ (λ (r : List ℕ). Unit) (skip_to_digit s) _ (anything (skip_to_digit s))
      (λ r _. read_digits-IsU64 0 r (omega arith))
  where
    anything : (m : Outcome (List ℕ)) → Ensures (λ (r : List ℕ). Unit) m
    anything (returns a) = tt
    anything (exits c) = tt
    anything faults = tt

-- So many numbers.
abbrev pub Numbers : ℕ → List ℕ → Type 0
Numbers n values = All IsU64 values × (length values ≡ n)

read_ints-Numbers : (count : ℕ) (s : List ℕ) → Ensures (Numbers count) (read_ints count s)
unfolding read_ints
read_ints-Numbers zero s = (tt, refl)
read_ints-Numbers (suc count) s = Ensures-bind _ _ (read_int s) _ (read_int-IsU64 s) (λ a ha.
    Ensures-bind _ _ (read_ints count a.1) _ (read_ints-Numbers count a.1)
      (λ b hb. ((ha, hb.0), ap suc hb.1)))

read_disk-Numbers :
    (buffer : List ℕ) (o : Option (List ℕ))
    → Ensures (λ (r : List ℕ × List ℕ). Numbers disk_values_size r.0) (read_disk buffer o)
unfolding read_disk
read_disk-Numbers buffer none = tt
read_disk-Numbers buffer (some content) =
    Ensures-bind (λ (r : List ℕ × List ℕ). Numbers disk_values_size r.0) (Numbers disk_values_size)
      (read_ints disk_values_size (pread_into buffer 1023 content))
      (λ values. returns (values, pread_into buffer 1023 content))
      (read_ints-Numbers disk_values_size (pread_into buffer 1023 content)) (λ b hb. hb)

_get_disk-Numbers :
    (files : Files (Option ℕ)) (buffer : List ℕ) (sources : List (Option ℕ))
    → Ensures (Numbers (length sources * disk_values_size)) (_get_disk files buffer sources)
unfolding _get_disk
_get_disk-Numbers files buffer [] = (tt, refl)
_get_disk-Numbers files buffer (fd ∷ sources) =
    Ensures-bind _ _ (read_disk buffer (files fd)) _ (read_disk-Numbers buffer (files fd)) (λ a ha.
      Ensures-bind _ _ (_get_disk files a.1 sources) _ (_get_disk-Numbers files a.1 sources)
        (λ b hb.
          (All-append IsU64 a.0 b ha.0 hb.0, omega (arith, length-append a.0 b, ha.1, hb.1))))

-- Fifteen numbers for each descriptor.
abbrev pub IsDisk : Disk → Type 0
IsDisk s = Numbers (length s.sources * disk_values_size) s.tmp_values

get_disk_moves :
    (files : Files (Option ℕ)) (buffer : List ℕ) (s : Disk)
    → IsDisk s
    → Ensures
        (λ (r : List ℕ × Disk). IsDisk r.1 × (add_into s.tmp_values r.0 ≡ r.1.tmp_values))
        (get_disk files buffer s)
unfolding get_disk
get_disk_moves files buffer s h =
    Ensures-bind _ _ (_get_disk files buffer s.sources) _ (_get_disk-Numbers files buffer s.sources)
      (λ v hv. (
        hv,
        ap (add_into s.tmp_values) (differences-deltas v s.tmp_values hv.0 h.0)
            ∙ add_into-deltas s.tmp_values v (hv.1 ∙ sym h.1) h.0 hv.0,
      ))

-- Over any sequence of calls of `get_disk` that all return, the sums of the results, place by place and
-- modulo 2^64, lead from the statistics at the start to the last ones.
pub get_disk_total :
    (calls : List (Files (Option ℕ) × List ℕ)) (s : Disk)
    → IsDisk s
    → Ensures
        (λ (r : List (List ℕ) × Disk). foldl add_into s.tmp_values r.0 ≡ r.1.tmp_values)
        (run (λ call. get_disk call.0 call.1) calls s)
get_disk_total calls s h =
    run_total (λ call. get_disk call.0 call.1) (λ st. st.tmp_values) IsDisk
      (λ call st hs. get_disk_moves call.0 call.1 st hs) calls s h

-- What `init_disk` leaves behind: nothing, or a state with as many values and labels as it returns.
abbrev pub StartedDisk : ℕ → ℕ × Option Disk → Type 0
StartedDisk nb (count, none) = (nb ≡ 0) × (count ≡ 0)
StartedDisk nb (count, some s) =
    (length s.sources ≡ nb) × (count ≡ nb * disk_values_size) × (length s.labels ≡ count) × IsDisk s

add_disk_labels :
    (open_file : List ℕ → Option ℕ) (name : Option (List ℕ))
    → Ensures
        (λ (r : Option ℕ × List (List ℕ)). length r.1 ≡ disk_values_size)
        (add_disk open_file name)
unfolding add_disk
add_disk_labels open_file none = tt
add_disk_labels open_file (some name) =
    Ensures-if (λ (r : Option ℕ × List (List ℕ)). length r.1 ≡ disk_values_size)
      (ltb (length (stat_path name)) 1024) _ faults refl tt

add_disks_labels :
    (open_file : List ℕ → Option ℕ) (found : List (List ℕ))
    → Ensures
        (λ (r : List (Option ℕ) × List (List ℕ)).
          (length r.0 ≡ length found) × (length r.1 ≡ length found * disk_values_size))
        (add_disks open_file found)
unfolding add_disks
add_disks_labels open_file [] = (refl, refl)
add_disks_labels open_file (path ∷ found) =
    Ensures-bind _ _ (add_disk open_file (after_last_slash path)) _
      (add_disk_labels open_file (after_last_slash path))
      (λ a ha.
        Ensures-bind _ _ (add_disks open_file found) _ (add_disks_labels open_file found)
          (λ b hb. (ap suc hb.0, omega (arith, length-append a.1 b.1, ha, hb.1))))

-- An `init_disk` that returns gives, for `nb` devices found, 15 `nb` as the number of values, `nb`
-- descriptors, a label for each value and a first reading of each value; no device, no state.
pub init_disk-StartedDisk :
    (found : List (List ℕ)) (open_file : List ℕ → Option ℕ) (files : Files (Option ℕ))
    (buffer : List ℕ)
    → Ensures (StartedDisk (length found)) (init_disk found open_file files buffer)
unfolding init_disk start_disk
init_disk-StartedDisk [] open_file files buffer = (refl, refl)
init_disk-StartedDisk (path ∷ found) open_file files buffer =
    Ensures-bind _ _ (add_disks open_file (path ∷ found)) _
      (add_disks_labels open_file (path ∷ found))
      (λ a ha.
        Ensures-bind (StartedDisk (length (path ∷ found))) _ (_get_disk files buffer a.0) _
          (_get_disk-Numbers files buffer a.0)
          (λ v hv. (ha.0, ap (λ n. n * disk_values_size) ha.0, omega (arith, ha.0, ha.1), hv)))
