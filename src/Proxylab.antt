-- ===== src/Proxylab.antt =====
-- The proxy of proxylab/: its cache of web objects (Cache, cache.c), and from proxy.c the request
-- that it builds (Request), the response that it forwards (Response), what a thread does with the
-- cache (Doit) and the lock around that (Threads). Tiny is the web
-- server of proxylab/tiny/tiny.c that the proxy is tried with.
pub mod Cache
pub mod Doit
pub mod Request
pub mod Response
pub mod Threads
pub mod Tiny
