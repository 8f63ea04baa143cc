-- ===== src/Sources/Tests.antt =====
-- The sensors of the table on a concrete system.
use mojit_os.Base.{Safely, ℕ, refl, inl, inr, Option, none, some, List, [], ◌∷◌, ◌++◌, arith}
use mojit_os.Base.Text.{codes, decimal}
use mojit_os.Libmojitos.{Moj, moj_init}
use mojit_os.Libmojitos.Invariant.{IsValid, Stands, Interrupted}
use mojit_os.Libmojitos.Options.{sensors_of, options_of}
use mojit_os.Sensors.Memory.{SysInfo}
use mojit_os.Sensors.Reading.{opened, missing, Shows}
use mojit_os.Sources.{Source, System, ReadableSystem, Closed, source_table}
use mojit_os.Sources.Keep.{source_laws, call_all, sources-IsValid}

abbrev some_ram : SysInfo
some_ram = record {
  totalram = 64;
  freeram = 20;
  sharedram = 1;
  bufferram = 2;
  totalswap = 8;
  freeswap = 8;
  procs = 300;
  totalhigh = 0;
  freehigh = 0;
  mem_unit = 1;
}

abbrev hundred : List ℕ
hundred = decimal 100 ++ (10 ∷ [])

abbrev one_system : System
one_system = record {
  sysinfo = some some_ram;
  ports = [];
  open_port_file = λ path. some 3;
  port_files = λ fd. some hundred;
  stack = [];
  hwmon = record { read_file = λ path. missing; open_file = λ path. opened 9 };
  rounds = 1;
  key = 0;
  temp_files = λ fd. none;
  temp_buffer = [];
}

port_file-Shows : (fd : Option ℕ) → Shows 127 one_system.port_files fd 100
unfolding decimal
port_file-Shows fd = record {
  end = 10;
  more = [];
  content = refl;
  ends = refl;
  fits = omega arith;
  reached = omega arith;
}

abbrev one_readable : ReadableSystem
one_readable = record {
  system = one_system;
  readable = record {
    ports_ok = λ fd. inr (100, port_file-Shows fd);
    temps_ok = λ fd. inl refl;
    chips = [];
    chips_ok = refl;
    rounds_ok = omega arith;
  };
}

sources-IsValid_example :
    Stands
      (λ (m : Moj ReadableSystem Source Closed).
        (later : List ReadableSystem)
        → Safely (IsValid (sensors_of source_table) source_laws) (call_all later m))
      (Interrupted source_table source_laws)
      (moj_init one_readable
        (options_of source_table ++ [])
        (sensors_of source_table)
        ((b'm', none) ∷ (b'i', some (codes "/port")) ∷ []))
sources-IsValid_example =
    sources-IsValid one_readable ((b'm', none) ∷ (b'i', some (codes "/port")) ∷ [])
