-- ===== src/Proxylab/Threads/Spinning.antt =====
-- What a thread of proxylab/proxy.c does to the others whose call of add_to_cache does not end.
use introduction_to_computer.Common.{Bool, true, false}
use introduction_to_computer.Proxylab.Threads.{Stage, spinning}

spins : Stage → Bool
spins spinning = true
spins _ = false
