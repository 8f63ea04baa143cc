-- ===== src/Lib.antt =====
-- mojitO/S: a monitor of system counters, power and resources for Linux. The program asks sources of
-- measures (sensors) for their values at a given frequency, and prints a row of numbers per period or
-- serves them to a Prometheus scraper.
--
-- The parts and the files that model them:
--   Base                 names shared by all: lists over native numbers, C strings and the functions of
--                        the C library that the sources call (strtoull, strtol, atoi, strtok, decimal
--                        printing), and `Outcome`, what a C function does beside returning (exit, or
--                        undefined behaviour)
--   Util                 src/util.c: modulo_substraction, modulo_substraction_bound, read_int
--   InfoReader           lib/info_reader.c, lib/info_reader.h: the parser of key and value files
--   Libmojitos           src/libmojitos.c: the options, the started sources, their values, the cleaners
--   Sensors              the sources of measures; Reading and Deltas hold what several of them share
--     Infiniband         src/infiniband.c
--     CpuSensors         src/amd_rapl.c: one core, its registers, and /proc/cpuinfo
--     AmdRapl            src/amd_rapl.c: the processors and the sensors
--     Disk, Load         src/disk.c, src/load.c
--     Rapl               src/rapl.c
--     NvidiaSensors      src/nvidia_gpu.c: the sensors of one device
--     NvidiaGpu          src/nvidia_gpu.c: the devices
--     Counters           src/counters.c
--     MemoryCounters     src/memory_counters.c
--     Memory             src/memory.c
--     Routes, Network    src/network.c: the devices of the route file, and their counters
--     Temperature        src/temperature.c
--     Likwid             src/likwid.c
--   Sources              three sensors as the records of the table of src/libmojitos.c (src/memory.h,
--                        src/infiniband.h, src/temperature.h)
--   Program.Loop         src/mojitos.c: the settings and the loop of main
--   Program.Main         src/mojitos.c: main from its arguments to its end, with the loop and the display
--   Program.Demo         src/libmojitos_demo.c, the example of the use of the library
--   Program.Display      src/display_manager.c, the manager of mojitos
--   Program.Prometheus   src/prometheus_manager.c, the manager of prometheus_mojitos
--
-- A function of the model has the name of the C function that it translates; a loop or a part of a
-- function is a helper named for what it does, and its comment says which part it is. Under a module,
-- the children hold the lemmas and theorems, named for what they show, and `Tests` the runs and the
-- theorems at concrete inputs.
--
-- How the parts interact: main calls moj_init, moj_get_values and moj_clean of libmojitos.c, and
-- init_manager and use_manager of one of the managers; libmojitos.c calls the init, get, label and clean
-- functions of each sensor; the sensors read files by pread and strtoull, read_int or the parser of
-- info_reader.c, and report differences by util.c. A sensor is the record `Sensor`, and `Laws` is what
-- libmojitos.c relies on: get gives an entry for each value that init announced, which is the value
-- that it writes or `none` for a value that it leaves as it was, as src/memory_counters.c does for a
-- key that /proc/vmstat lacks; `Fills` is the law of the sensors that write all of them. `Sources` is
-- about three sensors as such records. The loop of main uses the invariant of Libmojitos.
--
-- The model: state is passed explicitly; a C function that can fail is a function into `Outcome`, where
-- `exits c` is exit(c) and `faults` is undefined behaviour, such as an access outside of an array, a
-- division by 0 or a NULL that is read. A step of moj_init is a `Stage`: it goes on with the state, or
-- exits with the state that the exit finds, since main registers flushexit before moj_init, and the
-- exit runs moj_clean on the globals as they stand. A source is counted before its init runs and gets
-- its cleaner after it, as in add_source, so that an exit in an init makes moj_clean call a cleaner that
-- is not set, a fault of the model. Numbers are natural numbers with the wrap of uint64_t and of
-- unsigned written out; an int is its 32-bit pattern or a sign and a magnitude. Strings are lists of
-- bytes without the terminating NUL; buffers are lists of bytes with it. An uninitialised buffer is a
-- parameter, so that the theorems hold whatever the stack held. The operating system is a parameter:
-- files are functions from descriptors or paths to contents, and open, glob, perf_event_open, the NVML
-- library, the likwid library, optparse_long, the clock and the HTTP library are functions or lists of
-- their answers. What a theorem needs of them is a named hypothesis.
--
-- Fuel: `parse_loop` runs on the length of the file plus one, since every round but the last reads a byte;
-- `nb_cpu_loop`, `zone_loop` and `subzone_loop` run on a fuel argument, and their theorems ask for more
-- than the number of processors, zones and subzones; so do those of `chip_loop` and `temp_loop`. The
-- search of the route file runs on a round for each byte of its buffer and of its reads, since a round
-- leaves less of them to be looked at. The loop of main runs on the list of its moments.
--
-- Not modelled: the fork and the signals of src/mojitos.c beyond the words that are run and the moment at
-- which the loop stops; what the cleaners do at an exit inside of the loop, where the model only checks
-- that moj_clean can call them; the static key and buffer of src/temperature.c from one start of that
-- sensor to the next, in Sources (init_temperature itself takes and gives the key); show_all_likwid,
-- which starts another program, and the debug prints; the release of memory; lib/optparse.h, which is a
-- library of another project; configure and the scripts that generate headers; the tests and the
-- examples of doc.
pub mod Base
pub mod Util
pub mod InfoReader
pub mod Libmojitos
pub mod Sensors
pub mod Sources
pub mod Program
