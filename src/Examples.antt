-- ===== src/Examples.antt =====
-- The theorems at concrete inputs, and the test data for them.
mod Clients
mod Commands
mod Wire
mod Transport
mod Serving
mod Reports
mod Pages
mod Prints
