-- ===== src/Tests.antt =====
-- Concrete runs of the models, and each theorem at an input that meets its hypotheses.
mod Ports
mod Submission
mod Domains
mod Delivery
mod Queue
mod Sweeping
mod Stored
mod Database
mod Http
mod Loop
mod Fetch
mod Store
mod Resolve
mod Values
mod Composed
