-- ===== src/Util/Tests.antt =====
-- Runs of src/util.c, and its theorems at concrete inputs.
use mojit_os.Base.{returns, faults, ◌+◌, ◌-◌, ◌%◌, ◌≡◌, refl, ◌↔◌, ◌∷◌, ◌++◌, arith}
use mojit_os.Base.Text.{u64_mod, codes, decimal}
use mojit_os.Util.{
  modulo_substraction, modulo_substraction_bound, read_int, modulo_substraction_unique,
  modulo_substraction_bound_unique, read_int-decimal, read_int_overrun,
}

-- The cases of tests/util.c.
test_modulo_substraction :
    (modulo_substraction 10 10 ≡ 0)
    × (modulo_substraction (u64_mod - 1) 0 ≡ u64_mod - 1)
    × (modulo_substraction 0 (u64_mod - 1) ≡ 1)
    × (modulo_substraction 10 20 ≡ u64_mod - 10)
unfolding modulo_substraction
test_modulo_substraction = (refl, refl, refl, refl)

test_read_int : read_int (codes "   8 12") ≡ returns (8, codes " 12")
unfolding read_int
test_read_int = refl

modulo_substraction_unique_example :
    (modulo_substraction 0 (u64_mod - 1) ≡ 1) ↔ ((u64_mod - 1 + 1) % u64_mod ≡ 0)
modulo_substraction_unique_example =
    modulo_substraction_unique 0 (u64_mod - 1) 1 (omega arith) (omega arith) (omega arith)

modulo_substraction_bound_unique_example :
    (modulo_substraction_bound 3 260 262 ≡ 6) ↔ ((260 + 6) % (262 + 1) ≡ 3)
modulo_substraction_bound_unique_example =
    modulo_substraction_bound_unique 3 260 262 6 (omega arith) (omega arith) (omega arith)
      (omega arith)

read_int-decimal_example :
    read_int (codes "  " ++ (decimal 254 ++ (b' ' ∷ codes "0"))) ≡ returns (254, codes " 0")
read_int-decimal_example =
    read_int-decimal (codes "  ") 254 b' ' (codes "0") (refl, (refl, tt)) (omega arith) refl

read_int_overrun_example : read_int (codes " - ") ≡ faults
read_int_overrun_example = read_int_overrun (codes " - ") (refl, (refl, (refl, tt)))
