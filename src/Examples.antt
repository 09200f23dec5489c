-- ===== src/Examples.antt =====
-- The theorems on concrete inputs, and runs of the code.
pub mod Lists
pub mod Log
pub mod Tables
pub mod Worlds
pub mod Handlers
pub mod Sessions
pub mod Requests
pub mod Runs
pub mod Interleavings
pub mod Servers
pub mod Rings
pub mod Fields
pub mod Threads
