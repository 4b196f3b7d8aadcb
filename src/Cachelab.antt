-- ===== src/Cachelab.antt =====
-- The programs of cachelab/: the cache simulator csim.c and the matrix transpositions of trans.c.
pub mod Csim
pub mod Trans
