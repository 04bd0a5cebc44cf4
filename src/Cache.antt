-- ===== src/Cache.antt =====
-- The cache server of blockcache: the frames of its local messages, the process that owns the
-- database, the helper that talks to it, and the programs around it: the one that serves blocks, the one that stores
-- them, and the prefetcher.
pub mod Frame
pub mod Server
pub mod Process
pub mod Client
pub mod Fetch
pub mod Prefetch
pub mod Store
