-- ===== src/Examples.antt =====
-- Concrete runs: each theorem at an input where its hypotheses hold.
mod Wire
mod Sessions
mod Managers
mod Routing
mod Messages
mod Connections
mod Http
mod Adapters
mod Calls
mod Sites
mod Registrations
mod Starting
mod Ice
