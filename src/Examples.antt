-- ===== src/Examples.antt =====
-- The theorems at work: each applied to a concrete run of the code.
mod Typing
mod Pictures
mod Sessions
mod Outages
mod Titles
mod Punching
mod Signing
mod Logs
mod Roaming
