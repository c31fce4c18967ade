-- ===== src/Server/Reachable.antt =====
-- What src/server.rs reaches from its start, over every interleaving of the connections' steps.
use volcano_db.Base.{
  ℕ, ◌<◌, ◌+◌, ◌^◌, ◌≤◌, ◌≡◌, refl, ap, Bool, String, none, List, [], ◌∷◌, length, nat_eq, arith,
}
use volcano_db.HashMap
use volcano_db.HashMap.{HashMap, get-insert}
use volcano_db.Platform.{Platform}
use volcano_db.Outcome.{Outcome, ok, bind_ok, ok-injective}
use volcano_db.Planner.Ast.{Statement}
use volcano_db.Tx.Records.{Serde}
use volcano_db.Tx.Manager.{TransactionManager, new_manager}
use volcano_db.Recovery.{recover, parse_lines}
use volcano_db.Recovery.Restart.{recover_records-next_tx_id}
use volcano_db.Session.{SessionState, new_session}
use volcano_db.Handler.Defs.{DatabaseState, Response, inner_handle}
use volcano_db.Handler.Isolation.{Holds, inner_handle-Isolates}
use volcano_db.Server.{
  Server, recovered, setup_demo_data, run_all, boot, connect, send, serve, demo_sqls,
}
use volcano_db.Server.Sessions.{
  AreSettled, IsSettled, serve-Advances, send-db, send-IsSettled, connect-IsSettled,
}

module _ ⦃p : Platform⦄ ⦃serde : Serde⦄ (parse_sql : String → Outcome (List Statement))
    (fuel : ℕ) where
  -- The loop of the demo data hands out at most one transaction id for each statement.
  run_all-slowly :
      (db : DatabaseState) (session : SessionState) (sqls : List String) (db' : DatabaseState)
      → Holds session db.tx_mgr
      → db.tx_mgr.next_tx_id + length sqls < 2 ^ 64
      → run_all parse_sql fuel db session sqls ≡ ok db'
      → db'.tx_mgr.next_tx_id ≤ db.tx_mgr.next_tx_id + length sqls
  unfolding run_all
  run_all-slowly db session [] db' own lt e =
      let same = ap (λ x. x.tx_mgr.next_tx_id) (ok-injective e) in omega (arith, same)
  run_all-slowly db session (sql ∷ sqls) db' own lt e =
      let moved = inner_handle-Isolates db session own parse_sql fuel (omega arith) sql in
      let slowly = moved.slowly in
      let (r, _, later) = bind_ok (inner_handle parse_sql fuel db session sql).0 _ e in
      let after =
        run_all-slowly (inner_handle parse_sql fuel db session sql).1
          (inner_handle parse_sql fuel db session sql).2 sqls db' moved.holds (omega arith) later in
      omega arith

  recovered-next_tx_id :
      (lines : List String) (ended : Bool) → (recovered lines ended).tx_mgr.next_tx_id ≡ 1
  unfolding recovered recover
  recovered-next_tx_id [] ended = refl
  recovered-next_tx_id (line ∷ lines) ended =
      recover_records-next_tx_id (parse_lines (line ∷ lines)) [] (new_manager (line ∷ lines) ended)

  empty-AreSettled : (m : TransactionManager) → AreSettled m []
  unfolding HashMap.get
  empty-AreSettled m = record { own = λ i c at. cc; apart = λ i j c d t at at' a b. cc }

  -- The demo data take at most eight ids.
  boot-slowly :
      (lines : List String) (ended : Bool) (srv : Server)
      → boot parse_sql fuel lines ended ≡ ok srv
      → IsSettled srv × (srv.db.tx_mgr.next_tx_id ≤ 9)
  unfolding boot setup_demo_data new_session HashMap.get
  boot-slowly lines ended srv e =
      let (r, h, f) = bind_ok (setup_demo_data parse_sql fuel (recovered lines ended) 1) _ e in
      let (db, g, k) =
        bind_ok (run_all parse_sql fuel (recovered lines ended) (new_session 1).0 demo_sqls) _ h in
      let one = recovered-next_tx_id lines ended in
      let le =
        run_all-slowly (recovered lines ended) (new_session 1).0 demo_sqls db (λ t a. cc)
          (omega arith) g in
      let same = ap (λ s. s.db.tx_mgr.next_tx_id) (ok-injective f) in
      let before = ap (λ x. x.0.tx_mgr.next_tx_id) (ok-injective k) in
      (
        rw⁻¹ (ap (λ s. s.connections) (ok-injective f)) (empty-AreSettled srv.db.tx_mgr),
        omega arith,
      )

  module _ (format : Response → String) where
    -- What the server comes to: clients connect, on connections not used before, and the open
    -- connections run their statements and write their responses, in any order.
    pub data Reached (srv : Server) : ℕ → Server → Type 0 where
      started : Reached srv 0 srv
      connects :
          {n : ℕ} {now : Server} (i : ℕ) (bytes : List ℕ)
          → HashMap.get now.connections i ≡ none
          → Reached srv n now
          → Reached srv (n + 1) (connect now i bytes)
      serves :
          {n : ℕ} {now : Server} (i : ℕ)
          → Reached srv n now
          → Reached srv (n + 1) (serve parse_sql format fuel now i)
      sends : {n : ℕ} {now : Server} (i : ℕ) → Reached srv n now → Reached srv (n + 1) (send now i)

    Reached-slowly :
        {srv : Server} {n : ℕ} {now : Server}
        → IsSettled srv
        → srv.db.tx_mgr.next_tx_id + n < 2 ^ 64
        → Reached srv n now
        → IsSettled now × (now.db.tx_mgr.next_tx_id ≤ srv.db.tx_mgr.next_tx_id + n)
    unfolding connect
    Reached-slowly settled lt started = (settled, omega arith)
    Reached-slowly settled lt (connects {n} {now} i bytes new r) =
        let (s, le) = Reached-slowly settled (omega arith) r in
        (connect-IsSettled now i bytes s, omega arith)
    Reached-slowly settled lt (serves {n} {now} i r) =
        let (s, le) = Reached-slowly settled (omega arith) r in
        let (s', le') = serve-Advances parse_sql format fuel now s (omega arith) i in
        (s', omega arith)
    Reached-slowly settled lt (sends {n} {now} i r) =
        let (s, le) = Reached-slowly settled (omega arith) r in
        let same = ap (λ db. db.tx_mgr.next_tx_id) (send-db now i) in
        (send-IsSettled now i s, omega (arith, same))

    -- Whatever redo.log the server starts on, and however the steps of the connections
    -- interleave, for fewer than 2 ^ 64 - 9 of them: the transaction of every session is
    -- active, and no two connections have the same one.
    pub boot-AreSettled :
        (lines : List String) (ended : Bool) {srv : Server} {n : ℕ} {now : Server}
        → boot parse_sql fuel lines ended ≡ ok srv
        → n + 9 < 2 ^ 64
        → Reached srv n now
        → AreSettled now.db.tx_mgr now.connections
    boot-AreSettled lines ended e lt r =
        let (s, le) = boot-slowly lines ended _ e in (Reached-slowly s (omega arith) r).0
