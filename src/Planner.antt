-- ===== src/Planner.antt =====
-- src/planner.rs: expressions (Expr), logical plans and their schemas (Plan), and the binder from the
-- parser's trees (Ast, BindExpr, BindQuery). The other modules are about them.
pub mod Expr
pub mod Plan
pub mod Final
pub mod BindFinal
pub mod Ast
pub mod BindExpr
pub mod BindQuery
pub mod Aggregates
pub mod Bound
pub mod Headers
