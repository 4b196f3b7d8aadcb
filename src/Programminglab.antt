-- ===== src/Programminglab.antt =====
-- The string queue of cprogramminglab-handout/queue.c.
pub mod Queue
