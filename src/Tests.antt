-- ===== src/Tests.antt =====
-- The theorems applied to concrete inputs, by part of the program.
mod Streams
mod Events
mod Tools
mod Uploads
mod Web
mod Sessions
mod Keys
mod Manager
mod Interface
mod Table
mod Channels
mod Drives
mod Store
mod Signals
