-- ===== src/Executor.antt =====
-- src/executor.rs: the physical operators of the Volcano model. Agg and Order hold the aggregate
-- states and the sort, Defs the operators with their `init`, `next` and `close`, Build the
-- translation of a logical plan. Flow says what an operator tree means, and Yields, Pipeline,
-- Scans, Blocking, Drain and Refinement hold the operators to it. Limits is about LIMIT, Sorting
-- and Unsorted about ORDER BY, Joins about joins, Grouping and Keys about GROUP BY, and Final and
-- Terminating about the end of every query.
pub mod Agg
pub mod Order
pub mod Defs
pub mod Init
pub mod Build
pub mod Flow
pub mod Yields
pub mod Pipeline
pub mod Scans
pub mod Blocking
pub mod Drain
pub mod Refinement
pub mod Keys
pub mod Limits
pub mod Sorting
pub mod Unsorted
pub mod Panics
pub mod Grouping
pub mod Joins
pub mod Final
pub mod Terminating
