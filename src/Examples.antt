-- ===== src/Examples.antt =====
-- The theorems at concrete inputs.
mod Names
mod Storage
mod Presence
mod Queue
mod Folders
mod History
mod Chat
mod Transfer
mod Discovery
mod EventQueue
mod Server
mod Identity
mod Uploads
mod Client
mod Sends
mod Resolve
