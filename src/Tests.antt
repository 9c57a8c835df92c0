-- ===== src/Tests.antt =====
-- Tests, and each theorem at an input that meets its hypotheses.
mod FirstFit
mod Allocation
mod Identifiers
mod Descriptors
mod Fences
mod Machine
mod Histories
mod Requests
mod Lifecycle
mod Sent
mod Leak
mod Others
