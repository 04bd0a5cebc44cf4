-- ===== src/Tests.antt =====
-- Runs of the modelled code on concrete inputs, and the theorems at inputs that meet their
-- hypotheses.
mod Data
mod Metadata
mod Web
mod Cache
mod Process
mod Servers
mod Sync
mod Demo
mod Requests
mod Database
mod Blocks
mod Prefetch
mod Commits
mod Documents
mod Trees
