-- ===== src/Tests.antt =====
-- The theorems at concrete inputs, and runs of the definitions.
mod Buffers
mod Maps
mod Pools
mod Requests
mod Services
mod Replies
mod Servers
mod Groups
mod Works
mod ByteStrings
mod Blocking
mod Handlers
