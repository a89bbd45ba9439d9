-- ===== src/Tests.antt =====
-- Runs of the model on concrete input, and the theorems applied to it.
pub mod Sample
pub mod Texts
pub mod Votes
pub mod Client
pub mod Frames
