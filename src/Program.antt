-- ===== src/Program.antt =====
-- The program: src/mojitos.c and its two managers of the output.
pub mod Display
pub mod Loop
pub mod Prometheus
pub mod Demo
pub mod Main
