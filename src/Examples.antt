-- ===== src/Examples.antt =====
-- Tests on concrete inputs, and the theorems applied to them.
mod Toy
mod Opened
mod Checksums
mod Surrogates
mod Streams
mod Conversations
mod Chat
mod Regions
mod Replies
mod Fields
mod Rehydrations
mod Requests
mod Chained
mod Handling
mod Placement
