-- ===== src/Handlers.antt =====
-- The FastCGI programs of metadata/src: the body of each accept loop, as an action on the database
-- and the output.
pub mod Files
pub mod Caches
pub mod Commits
pub mod Keeps
pub mod Reads
pub mod Invariant
pub mod Registry
pub mod Service
pub mod Answers
pub mod Deletion
