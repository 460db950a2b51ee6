-- ===== src/Trace.antt =====
-- The trace database: the rows of backend/app/models, the tables, and what the services read of them.
-- A row's `created_at` is left out. Scores are of the float type `F`; a cost is in millionths of a
-- dollar, the unit to which the program quantizes it.
pub mod Rows
pub mod Store
pub mod Invariant
pub mod Write
pub mod Context
