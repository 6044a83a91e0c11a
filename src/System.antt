-- ===== src/System.antt =====
-- The parts of the program on one database: how jobs live, what every operation keeps, and the
-- sequences of operations.
pub mod Life
pub mod Consistency
pub mod Statements
pub mod Insertions
pub mod Moves
pub mod Operations
pub mod Results
pub mod Applies
pub mod Dispatches
pub mod Traces
pub mod Rounds
pub mod Leases
pub mod Completion
pub mod Answers
