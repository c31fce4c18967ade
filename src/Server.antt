-- ===== src/Server.antt =====
-- src/server.rs: the start of the server, and the two steps of a connection's loop: a statement is
-- read and run under the lock of the database, and its response is written after the lock is
-- released. The connections interleave step by step. `format` makes the text of a response.
pub mod Sessions
pub mod Reachable
pub mod Promises
pub mod Poison
use volcano_db.Base.{
  ℕ, ◌+◌, Bool, true, false, String, Option, none, some, List, [], ◌∷◌, ◌++◌, nat_eq, is_empty,
  if◌then◌else◌, ◌&&◌,
}
use volcano_db.HashMap
use volcano_db.HashMap.{HashMap}
use volcano_db.Platform.{Platform}
use volcano_db.Outcome.{Outcome, ok, stop, ◌>>=◌}
use volcano_db.Catalog.{empty_catalog}
use volcano_db.Planner.Ast.{Statement}
use volcano_db.Tx.Records.{Serde}
use volcano_db.Tx.Manager.{TransactionManager, new_manager}
use volcano_db.Recovery.{Tables, recover}
use volcano_db.Session.{SessionState, new_session}
use volcano_db.Protocol.Frames.{Read, got, unexpected_eof, invalid_utf8, write_frame, read_frame}
use volcano_db.Handler.Defs.{
  DatabaseState, Response, crashed, panicked, Handled, inner_handle, handle_statement,
}

-- The statements of `setup_demo_data`.
abbrev pub demo_sqls : List String
demo_sqls =
    "CREATE TABLE users (id INT, name VARCHAR, age INT, score FLOAT)"
    ∷ "INSERT INTO users VALUES (1, 'Alice', 25, 95.5), (2, 'Bob', 30, 88.0), (3, 'Charlie', 22, 92.0), (4, 'David', 30, 75.5), (5, 'Eva', 25, 99.0)"
    ∷ "CREATE TABLE categories (id INT, category_name VARCHAR)"
    ∷ "INSERT INTO categories VALUES (10, 'Electronics'), (20, 'Books'), (30, 'Clothing')"
    ∷ "CREATE TABLE products (id INT, product_name VARCHAR, category_id INT)"
    ∷ "INSERT INTO products VALUES (501, 'Laptop', 10), (502, 'Phone', 10), (503, 'Rust Programming Book', 20), (504, 'T-Shirt', 30)"
    ∷ "CREATE TABLE orders (id INT, user_id INT, product_id INT, amount FLOAT)"
    ∷ "INSERT INTO orders VALUES (101, 1, 501, 1500.0), (102, 2, 503, 88.0), (103, 1, 504, 45.0), (104, 3, 502, 999.0), (105, 9, 501, 999.0)"
    ∷ []

module _ ⦃p : Platform⦄ where
  -- A connection's thread: its session, the bytes that the client has sent and that are not read
  -- yet, the response that is made and not written yet, the bytes sent back, and whether its loop
  -- still runs.
  pub record Connection : Type 0 where
    pub session : SessionState
    pub input : List ℕ
    pub pending : Option String
    pub output : List ℕ
    pub running : Bool

  pub record Server : Type 0 where
    pub db : DatabaseState
    pub connections : HashMap ℕ Connection
    -- SESSION_SEQ
    pub session_seq : ℕ
    -- a thread has panicked with the lock held
    pub poisoned : Bool
    -- the process has exited
    pub exited : Bool

  -- A new connection, on which the client sends these bytes.
  unfoldable pub connect : Server → ℕ → List ℕ → Server
  connect srv i bytes =
      let (session, next) = new_session srv.session_seq in
      record srv {
        connections = HashMap.insert srv.connections i (record {
          session = session;
          input = bytes;
          pending = none;
          output = [];
          running = true;
        });
        session_seq = next;
      }

  -- The loop is at `read_frame`.
  abbrev pub is_ready : Connection → Bool
  is_ready c = c.running && elim c.pending [ none ↦ true | some text ↦ false ]

  abbrev pub put : Server → ℕ → Connection → Server
  put srv i c = record srv { connections = HashMap.insert srv.connections i c }

  -- Connection `i` writes its response, where there is one to write.
  unfoldable pub send : Server → ℕ → Server
  send srv i = elim (HashMap.get srv.connections i) [
    | none ↦ srv
    | some c ↦ if srv.exited then srv else elim c.pending [
      | none ↦ srv
      | some text ↦ put srv i (record c { pending = none; output = c.output ++ write_frame text })
    ]
  ]

  module _ ⦃serde : Serde⦄ where
    -- The database before the demo data: with a log that is not empty, what recovery makes of it.
    unfoldable pub recovered : List String → Bool → DatabaseState
    recovered lines ended =
        let m = new_manager lines ended in
        if is_empty lines
        then (record { catalog = empty_catalog; tables = []; tx_mgr = m })
        else (let (tables, m') = recover (some lines) [] m in
            record { catalog = empty_catalog; tables = tables; tx_mgr = m' })

  module _ ⦃serde : Serde⦄ (parse_sql : String → Outcome (List Statement)) where
    -- The loop of setup_demo_data: the first error ends it.
    unfoldable pub run_all : ℕ → DatabaseState → SessionState → List String → Outcome DatabaseState
    run_all fuel db session [] = ok db
    run_all fuel db session (sql ∷ rest) =
        let (o, db', session') = inner_handle parse_sql fuel db session sql in
        let later = run_all fuel db' session' rest in o >>= λ r. later

    -- setup_demo_data, and the counter of session ids after it
    unfoldable pub setup_demo_data : ℕ → DatabaseState → ℕ → Outcome (DatabaseState × ℕ)
    unfolding run_all
    setup_demo_data fuel db seq =
        let (tmp_session, next) = new_session seq in
        run_all fuel db tmp_session demo_sqls >>= λ db'. ok (db', next)

    -- `run` up to the loop over the connections, on a log with these lines, the last of which has
    -- its newline or not
    unfoldable pub boot : ℕ → List String → Bool → Outcome Server
    unfolding recovered setup_demo_data
    boot fuel lines ended = setup_demo_data fuel (recovered lines ended) 1 >>= λ r.
        ok (record {
          db = r.0;
          connections = [];
          session_seq = r.1;
          poisoned = false;
          exited = false;
        })

    module _ (format : Response → String) where
      -- The end of the locked block: there is a response, unless the process or the thread is gone.
      unfoldable pub answered :
          Server → ℕ → Connection → Response × DatabaseState × SessionState → Server
      answered srv i c (crashed, db, session) = record srv { exited = true }
      answered srv i c (panicked f, db, session) =
          record (put srv i (record c { session = session; running = false })) {
            db = db;
            poisoned = true;
          }
      answered srv i c (resp, db, session) =
          record (put srv i (record c { session = session; pending = some (format resp) })) {
            db = db;
          }

      -- With the lock held: a poisoned lock makes `lock().unwrap()` panic.
      unfoldable pub locked : ℕ → Server → ℕ → Connection → String → Server
      unfolding answered
      locked fuel srv i c sql =
          if srv.poisoned
          then put srv i (record c { running = false })
          else answered srv i c (handle_statement parse_sql fuel srv.db c.session sql)

      -- The loop of an open connection up to the response.
      unfoldable pub round : ℕ → Server → ℕ → Connection → Server
      unfolding locked
      round fuel srv i c = elim (read_frame c.input) [
        | got sql rest ↦ locked fuel srv i (record c { input = rest }) sql
        | unexpected_eof ↦ put srv i (record c { running = false })
        | invalid_utf8 ↦ put srv i (record c { running = false })
      ]

      -- Connection `i` reads a statement and runs it, where it has one to read.
      unfoldable pub serve : ℕ → Server → ℕ → Server
      unfolding round
      serve fuel srv i = elim (HashMap.get srv.connections i) [
        | none ↦ srv
        | some c ↦ if srv.exited then srv else if is_ready c then round fuel srv i c else srv
      ]
