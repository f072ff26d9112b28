-- ===== src/Tests.antt =====
-- Concrete runs of the model, and each theorem that has hypotheses at an input that meets them.
pub mod Sample
mod Secrets
mod Config
mod Repo
mod Http
mod Steps
mod Notify
mod Main
mod Router
mod Locks
mod Published
mod LocalFile
mod Run
mod Log
mod Example
mod View
mod Passes
mod Scenarios
