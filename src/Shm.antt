-- ===== src/Shm.antt =====
-- The shared memory path of projects/proxycacheserver/cache: the proxy's pool of segments
-- (shm_channel.c), and the transfer of a file through a segment between the cache daemon
-- (simplecached.c) and the proxy's handler (handle_with_cache.c).
pub mod Channel
pub mod Pool
pub mod Daemon
