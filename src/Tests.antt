-- ===== src/Tests.antt =====
-- Runs of small engines, and the theorems at concrete inputs.
mod Scheduling
mod Caching
mod Blocks
mod Speculating
mod Serving
mod Storage
mod Streaming
mod Watching
