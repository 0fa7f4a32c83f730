-- ===== src/Store.antt =====
-- agentd/src/agentd/db.py: the SQLite state store. `Rows` holds the schema, and each other child
-- the operations on one table, with the proofs below it.
-- Every method runs under the store's lock, so a method is one step on the whole store. A method
-- that reads `time.time()` takes that reading as an argument, `now`.
pub mod Rows
pub mod Schema
pub mod Deliveries
pub mod Breaker
pub mod Sessions
pub mod Turns
pub mod Artifacts
pub mod Escalations
pub mod Runners
pub mod Blocks
