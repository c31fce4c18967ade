-- ===== src/Lib.antt =====
-- A model of volcano_db, a small relational database: a TCP server that runs SQL statements over
-- tables in memory, with a Volcano executor, transactions, a redo log and crash recovery.
--
-- A statement comes to `handle_statement` (src/handler.rs), which runs BEGIN, COMMIT and ROLLBACK
-- against the transaction manager (src/tx.rs), changes the tables for CREATE TABLE and INSERT, and
-- for a query builds a tree of operators (src/executor.rs) from a logical plan (src/planner.rs).
-- The scans ask the transaction manager which rows the session may see. COMMIT and ROLLBACK write
-- the redo buffer to redo.log, from which `recover` (src/recovery.rs) rebuilds the tables.
--
-- The files, with the code that they are about:
--   Base, HashMap, Outcome, Text   std: numbers, lists, `i64`, hash maps, strings, results
--   Platform    what std leaves open: `f64`, Unicode case, the order of a hash map
--   Storage     src/storage.rs: Value, Tuple
--   Catalog     src/catalog.rs: Schema::find_col_idx, Catalog
--   Planner     src/planner.rs: Expr::eval, get_expr_type (Planner.Expr), LogicalPlan::schema
--               (Planner.Plan), the syntax trees that the binder takes (Planner.Ast),
--               map_sql_expr and extract_aggregates (Planner.BindExpr), bind_query and
--               bind_statement (Planner.BindQuery). Aggregates, Bound and Headers are about the
--               binder, Final and BindFinal about the absence of fuel.
--   Tx          src/tx.rs: the records (Tx.Records), TransactionManager (Tx.Manager), the redo
--               log (Tx.Log), is_visible (Tx.Visibility), the operations as steps (Tx.Steps)
--   Session     src/session.rs: SessionState
--   Executor    src/executor.rs: AggState and the group tables (Executor.Agg), the comparison of
--               ORDER BY (Executor.Order), next of the operators (Executor.Defs), their init
--               and close (Executor.Init), build_executor (Executor.Build). Executor.Flow is the
--               specification: what a tree means, with no cursor and no fuel, and
--               Executor.Refinement holds the operators to it. Limits is about LIMIT, Sorting,
--               Unsorted and Panics about ORDER BY, Joins about joins, Grouping and Keys about
--               GROUP BY, Final and Terminating about the end of every query.
--   Handler     src/handler.rs: the rows of INSERT and the undo records of ROLLBACK
--               (Handler.Rows), handle_statement and inner_handle (Handler.Defs). Query is about
--               SELECT, Inserting about INSERT, Rollback and Interleaved about ROLLBACK,
--               Publishing about COMMIT, Errors about statements that fail, Isolation about the
--               transactions of other sessions, Terminating about the end of every
--               statement, and Stepping ties the statements to the steps of Tx.Steps.
--   Recovery    src/recovery.rs: recover. Survivors is about the rows, Restart about the
--               transaction manager, Durable about COMMIT and recovery together.
--   Protocol    src/protocol.rs: write_frame, read_frame (Protocol.Frames), and the UTF-8 of std
--               (Protocol.Utf8)
--   Server      src/server.rs: run, its loop for a connection, and setup_demo_data of
--               src/handler.rs. Sessions and Reachable are about the interleavings of the
--               connections, Promises and Poison about a panic under the lock.
--   Client      src/client.rs: run; Client.Conversation is about it and a server that answers
--   Main        src/main.rs: main
--   Tests       runs at concrete inputs
--
-- State is passed explicitly: a statement gives back its reply or error, the database and the
-- session, changed as far as the code got. An `anyhow` error is a value of `Error`, a panic a value
-- of `Fault`. Counters are `u64` and `i64` values that wrap, as in a release build.
--
-- The loops of the executor (a filter that looks for its next row, the skipping of LIMIT, the
-- nested loop of a join, `while let Some(tuple) = child.next(ctx)?`) run on fuel. `Settles call r`
-- says that there is an amount of fuel from which on `call` gives `r`: the theorems on queries are
-- of this form, so that they include termination.
--
-- A server is a database, the connections and whether its mutex is poisoned. A statement runs under
-- the lock as a whole, and its response is written after the lock is released, so the threads
-- interleave by these two steps: `serve` reads a frame and runs the statement, `send` writes the
-- response. `Reached` lists the steps and the new connections in any order. The theorem that no two
-- connections share a transaction asks for fewer than 2 ^ 64 - 9 of them, so that the transaction
-- ids do not wrap. redo.log is the list of its lines, with a flag for a last line that lacks its
-- newline.
--
-- Parameters: `Platform`; `Serde`, the serde_json calls on redo records; `parse_sql`, the parser of
-- the sqlparser crate, whose trees Planner.Ast lists as far as the source names their variants; and
-- `format`, the text of a response. Not modelled: the text layout of result tables and messages, the
-- client's banner and prompts, trace output, accepting connections, and failures of file and socket
-- operations other than the end of a stream. `slice::sort_by` is a stable insertion sort, which a
-- panic of the comparison ends; which pairs std compares, and what it does with a comparison that is
-- no total order, is not modelled. It compares each of two rows or more, so that the pairs matter
-- only for a panic of a later ORDER BY expression.
pub mod Base
pub mod HashMap
pub mod Platform
pub mod Outcome
pub mod Text
pub mod Storage
pub mod Catalog
pub mod Planner
pub mod Tx
pub mod Session
pub mod Executor
pub mod Recovery
pub mod Protocol
pub mod Handler
pub mod Server
pub mod Client
pub mod Main
pub mod Tests
