-- ===== src/Tests/Serving.antt =====
-- The server on the fixture's platform, and the theorems about it at these inputs.
use volcano_db.Base.{ℕ, ◌≡◌, refl, true, false, none, String, List, [], ◌∷◌, ◌++◌, arith}
use volcano_db.Outcome.{Outcome, ok, stop, division_overflow}
use volcano_db.Planner.Ast.{
  SqlExpr, SqlValue, SqlBinaryOperator, SelectItem, GroupByExpr, SetExpr, Statement,
}
use volcano_db.Protocol.Frames.{write_frame}
use volcano_db.Handler.Defs.{Response, handle_statement}
use volcano_db.Server.{Server, Connection, boot, connect, send, serve}
use volcano_db.Server.Sessions.{AreSettled}
use volcano_db.Server.Reachable.{started, connects, serves, sends, boot-AreSettled}
use volcano_db.Server.Promises.{sent, unsent}
use volcano_db.Server.Poison.{panic-silences}
use volcano_db.Tests.Evaluate.{everything}
use volcano_db.Tests.Fixture.{whole_numbers, short_lines, database, session}

-- A parser for which every text creates the table of its name.
abbrev creations : String → Outcome (List Statement)
creations sql = ok (Statement.create_table sql [] ∷ [])

abbrev plain : Response → String
plain r = "OK"

abbrev idle : Server
idle = record { db = database; connections = []; session_seq = 1; poisoned = false; exited = false }

abbrev served : Outcome Server → Server
served (ok srv) = srv
served (stop x) = idle

abbrev start : Server
unfolding everything
start = served (boot creations 0 [] true)

start_lem : boot creations 0 [] true ≡ ok start
unfolding everything
start_lem = refl

-- Two clients connect, and both begin a transaction.
abbrev two_clients : Server
two_clients = connect (connect start 1 (write_frame "BEGIN")) 2 (write_frame "BEGIN")

abbrev both_begun : Server
both_begun = serve creations plain 0 (serve creations plain 0 two_clients 1) 2

boot-AreSettled_example : AreSettled both_begun.db.tx_mgr both_begun.connections
unfolding everything
boot-AreSettled_example = boot-AreSettled creations 0 plain [] true start_lem (omega arith) (
    serves 2 (
      serves 1
        (connects 2 (write_frame "BEGIN") refl (connects 1 (write_frame "BEGIN") refl started))))

abbrev literal : String → SqlExpr
literal digits = SqlExpr.value (SqlValue.number digits)

abbrev minus : SqlExpr → SqlExpr → SqlExpr
minus a b = SqlExpr.binary SqlBinaryOperator.minus a b

-- A parser that reads every text as a division of the least i64 by -1, made of literals alone: what
-- a query divides that finds these two values in a row.
abbrev overflowing : String → Outcome (List Statement)
overflowing sql = ok (
    Statement.query (record {
      body = SetExpr.select (record {
        from = [];
        selection = none;
        projection =
            SelectItem.unnamed_item (
              SqlExpr.binary SqlBinaryOperator.divide
                (minus (minus (literal "0") (literal "9223372036854775807")) (literal "1"))
                (minus (literal "0") (literal "1")))
            ∷ [];
        group_by = GroupByExpr.expressions [];
      });
      order_by = none;
      limit = none;
      offset = none;
    })
    ∷ [])

-- Client 3 has begun a transaction, and its answer is not written yet.
abbrev one_client : Server
one_client =
    serve overflowing plain 9
      (connect (connect idle 1 (write_frame "SELECT")) 3 (write_frame "BEGIN")) 3

abbrev client : Connection
client = record {
  session = session;
  input = write_frame "SELECT";
  pending = none;
  output = [];
  running = true;
}

-- Client 3 gets its answer after the panic; another client connects, and its BEGIN is served no
-- more.
abbrev after_panic : Server
after_panic =
    serve overflowing plain 9
      (connect (send (serve overflowing plain 9 one_client 1) 3) 2 (write_frame "BEGIN")) 2

answered_late : sent after_panic 3 ≡ write_frame "OK"
unfolding everything
answered_late = refl

panic-silences_example :
    (after_panic.db ≡ (handle_statement overflowing 9 one_client.db session "SELECT").1)
    × ((j : ℕ)
        → sent after_panic j ++ unsent after_panic j ≡ sent one_client j ++ unsent one_client j)
unfolding everything
panic-silences_example =
    panic-silences overflowing 9 plain one_client 1 client "SELECT" [] division_overflow 3
      after_panic refl refl refl refl refl refl
      (serves 2 (connects 2 (write_frame "BEGIN") refl (sends 3 started)))
