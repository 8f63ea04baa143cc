-- ===== src/Program/Demo/Tests.antt =====
-- A run of src/libmojitos_demo.c, and its theorem at a concrete call.
use mojit_os.Base.{returns, ◌-◌, ◌^◌, ◌≡◌, refl, none, [], ◌∷◌}
use mojit_os.Base.Text.{codes, decimal}
use mojit_os.Libmojitos.{
  write_at, write_over, add_source, match_sensor, start_match, handle_option, moj_init,
  moj_get_values,
}
use mojit_os.Libmojitos.Options.{sensors_of, options_of}
use mojit_os.Libmojitos.Tests.{clock_table}
use mojit_os.Program.Demo.{decimal_long, demo_main}

test_decimal_long : decimal_long (2 ^ 64 - 5) ≡ codes "-5"
unfolding decimal_long
test_decimal_long = refl

test_demo :
    demo_main 5 7 (options_of clock_table) (sensors_of clock_table) 2 ((b'c', none) ∷ [])
    ≡ returns (record { text = codes "now\tbefore\t\n7\t5\t\n"; cleaned = 7 ∷ [] })
unfolding demo_main moj_init handle_option match_sensor start_match add_source write_at write_over
    decimal moj_get_values
test_demo = refl
