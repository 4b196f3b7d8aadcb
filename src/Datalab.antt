-- ===== src/Datalab.antt =====
-- The bit puzzles of datalab-handout/bits.c: those on single-precision floats (Floats), and those
-- on long integers (Puzzles), with the references of datalab-handout/tests.c (References).
pub mod Floats
pub mod Words
pub mod Puzzles
pub mod References
