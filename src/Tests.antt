-- ===== src/Tests.antt =====
-- Runs of the model at concrete inputs, and each theorem at an input that meets its hypotheses.
mod Evaluate
mod Fixture
mod Queries
mod Transactions
mod Recovering
mod Undoing
mod Sorted
mod Binding
mod Wire
mod Statements
mod Serving
mod Talking
mod Grouping
