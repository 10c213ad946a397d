-- ===== src/Tests.antt =====
-- The theorems at concrete inputs, at which their hypotheses hold.
mod Keys
mod Documents
mod Models
mod Features
mod Network
mod Batched
mod Client
mod Secrets
mod Routes
mod Config
mod Served
mod Trained
