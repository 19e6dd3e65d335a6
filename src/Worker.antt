-- ===== src/Worker.antt =====
-- The repair of derived search projections. Worker/Leases holds the rows of search_projection_reconciliation and
-- their statements in src/wikipediarag/repository.py, Worker/Repair the repair of one document and Worker/Reconcile
-- the loop over the claimed documents, both in src/wikipediarag/worker.py.
pub mod Leases
pub mod Fencing
pub mod Settled
pub mod Repair
pub mod Guarded
pub mod Batches
pub mod Reconcile
mod Tests
