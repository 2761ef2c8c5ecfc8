-- ===== src/Tests.antt =====
-- Concrete inputs for the theorems: a key, a library, a small gallery, and the theorems at them.
mod Fixtures
mod Requests
mod Gallery
mod Uploads
mod Served
mod Galleries
mod Limits
mod Server
mod Healthy
mod Stored
mod Tool
mod Wire
mod Threads
mod Configs
