-- ===== src/Server/Poison.antt =====
-- The lock of src/server.rs after a panic: `db.lock().unwrap()` panics in every thread.
use mathlib.Core.List.{append-nil}
use mathlib.Core.Path.{subst}
use volcano_db.Base.{
  ℕ, ◌≡◌, ◌∙◌, refl, ap, inl, inr, Bool-cases, Option-cases, true, false, String, some, none, List,
  [], ◌++◌, nat_eq, arith, sym, if◌then◌else◌,
}
use volcano_db.HashMap
use volcano_db.HashMap.{HashMap, get-insert}
use volcano_db.Platform.{Platform}
use volcano_db.Outcome.{Outcome, Fault}
use volcano_db.Planner.Ast.{Statement}
use volcano_db.Tx.Records.{Serde}
use volcano_db.Protocol.Frames.{Read, got, unexpected_eof, invalid_utf8, read_frame, write_frame}
use volcano_db.Session.{SessionState, new_session}
use volcano_db.Handler.Defs.{DatabaseState, Response, panicked, handle_statement}
use volcano_db.Server.{
  Server, Connection, put, connect, answered, is_ready, locked, round, send, serve,
}
use volcano_db.Server.Promises.{sent, unsent, all_of, promised, put-promised, send-put}
use volcano_db.Server.Reachable.{Reached, started, connects, serves, sends}

module _ ⦃p : Platform⦄ where
  -- Nothing is begun any more: the lock stays poisoned, the data stay, no response is added.
  pub record IsSilent (srv now : Server) : Type 0 where
    pub stuck : now.poisoned ≡ true
    pub kept : now.db ≡ srv.db
    pub quiet : (j : ℕ) → promised now j ≡ promised srv j

  put-IsSilent :
      (srv now : Server) (i : ℕ) (c c' : Connection)
      → IsSilent srv now
      → HashMap.get now.connections i ≡ some c
      → all_of c' ≡ all_of c
      → IsSilent srv (put now i c')
  put-IsSilent srv now i c c' s at e = record {
    stuck = s.stuck;
    kept = s.kept;
    quiet = λ j. put-promised now i c c' at e j ∙ s.quiet j;
  }

  send-IsSilent : (srv now : Server) (i : ℕ) → IsSilent srv now → IsSilent srv (send now i)
  unfolding send
  send-IsSilent srv now i s = elim (Option-cases (HashMap.get now.connections i)) [
    | inl e ↦ simp (send, e) s
    | inr (c, e) ↦ elim (Bool-cases now.exited) [
      | inl x ↦ simp (send, e, x) s
      | inr x ↦ elim (Option-cases c.pending) [
        | inl n ↦ simp (send, e, x, n) s
        | inr (text, w) ↦
            subst (IsSilent srv) (sym (send-put now i c text e x w))
              (put-IsSilent srv now i c _ s e (rw w (append-nil (c.output ++ write_frame text))))
      ]
    ]
  ]

  connect-IsSilent :
      (srv now : Server) (i : ℕ) (bytes : List ℕ)
      → IsSilent srv now
      → HashMap.get now.connections i ≡ none
      → IsSilent srv (connect now i bytes)
  unfolding connect
  connect-IsSilent srv now i bytes s at = record {
    stuck = s.stuck;
    kept = s.kept;
    quiet = λ j.
        let q = s.quiet j in
        let c' : Connection = record {
          session = (new_session now.session_seq).0;
          input = bytes;
          pending = none;
          output = [];
          running = true;
        } in
        ground (arith, get-insert now.connections i c' j, q, at);
  }

  module _ ⦃serde : Serde⦄ (parse_sql : String → Outcome (List Statement)) (fuel : ℕ)
      (format : Response → String) where
    locked_poisoned :
        (now : Server) (i : ℕ) (c : Connection) (sql : String)
        → now.poisoned ≡ true
        → locked parse_sql format fuel now i c sql ≡ put now i (record c { running = false })
    unfolding locked
    locked_poisoned now i c sql e =
        ap
          (λ b.
            if b
            then put now i (record c { running = false })
            else answered parse_sql format now i c
                (handle_statement parse_sql fuel now.db c.session sql))
          e

    round-IsSilent :
        (srv now : Server) (i : ℕ) (c : Connection)
        → IsSilent srv now
        → HashMap.get now.connections i ≡ some c
        → IsSilent srv (round parse_sql format fuel now i c)
    unfolding round
    round-IsSilent srv now i c s at = go (read_frame c.input) refl
      where
        go :
            (r : Read String)
            → read_frame c.input ≡ r
            → IsSilent srv (round parse_sql format fuel now i c)
        go (got sql rest) e =
            simp (round, e, locked_poisoned now i (record c { input = rest }) sql s.stuck)
              (put-IsSilent srv now i c _ s at refl)
        go unexpected_eof e = simp (round, e) (put-IsSilent srv now i c _ s at refl)
        go invalid_utf8 e = simp (round, e) (put-IsSilent srv now i c _ s at refl)

    serve-IsSilent :
        (srv now : Server) (i : ℕ)
        → IsSilent srv now
        → IsSilent srv (serve parse_sql format fuel now i)
    unfolding serve
    serve-IsSilent srv now i s = elim (Option-cases (HashMap.get now.connections i)) [
      | inl e ↦ simp (serve, e) s
      | inr (c, e) ↦ elim (Bool-cases now.exited) [
        | inl x ↦ simp (serve, e, x) s
        | inr x ↦ elim (Bool-cases (is_ready c)) [
          | inl r ↦ simp (serve, e, x, r) (round-IsSilent srv now i c s e)
          | inr r ↦ simp (serve, e, x, r) s
        ]
      ]
    ]

    Reached-IsSilent :
        {srv : Server} {n : ℕ} {now : Server}
        → srv.poisoned ≡ true
        → Reached parse_sql fuel format srv n now
        → IsSilent srv now
    Reached-IsSilent stuck started = record { stuck = stuck; kept = refl; quiet = λ j. refl }
    Reached-IsSilent {srv} stuck (connects {n} {now} i bytes new r) =
        connect-IsSilent srv now i bytes (Reached-IsSilent stuck r) new
    Reached-IsSilent {srv} stuck (serves {n} {now} i r) =
        serve-IsSilent srv now i (Reached-IsSilent stuck r)
    Reached-IsSilent {srv} stuck (sends {n} {now} i r) =
        send-IsSilent srv now i (Reached-IsSilent stuck r)

    module _ (srv : Server) (i : ℕ) (c : Connection) where
      serve-round :
          srv.exited ≡ false
          → HashMap.get srv.connections i ≡ some c
          → is_ready c ≡ true
          → serve parse_sql format fuel srv i ≡ round parse_sql format fuel srv i c
      unfolding serve
      serve-round up at run =
          ap
            (λ o. elim o as (λ _. Server) [
              | none ↦ srv
              | some c ↦
                  if srv.exited
                  then srv
                  else if is_ready c
                  then round parse_sql format fuel srv i c
                  else srv
            ])
            at
          ∙ ap
              (λ b.
                if b then srv else if is_ready c then round parse_sql format fuel srv i c else srv)
              up
          ∙ ap (λ b. if b then round parse_sql format fuel srv i c else srv) run

      round-locked :
          (sql : String) (rest : List ℕ)
          → read_frame c.input ≡ got sql rest
          → round parse_sql format fuel srv i c
            ≡ locked parse_sql format fuel srv i (record c { input = rest }) sql
      unfolding round
      round-locked sql rest e = rw (round, e) refl

      locked-answered :
          (sql : String)
          → srv.poisoned ≡ false
          → locked parse_sql format fuel srv i c sql
            ≡ answered parse_sql format srv i c
                (handle_statement parse_sql fuel srv.db c.session sql)
      unfolding locked
      locked-answered sql free =
          ap
            (λ b.
              if b
              then put srv i (record c { running = false })
              else answered parse_sql format srv i c
                  (handle_statement parse_sql fuel srv.db c.session sql))
            free

      -- The server after a panic.
      abbrev broken : DatabaseState → SessionState → Server
      broken db session = record (put srv i (record c { session = session; running = false })) {
        db = db;
        poisoned = true;
      }

      answered-broken :
          (r : Response) (db : DatabaseState) (session : SessionState) (f : Fault)
          → r ≡ panicked f
          → answered parse_sql format srv i c (r, db, session) ≡ broken db session
      unfolding answered
      answered-broken r db session f e =
          ap (λ r. answered parse_sql format srv i c (r, db, session)) e

    -- Where the statement that an open connection reads panics, with the process running, the lock
    -- not poisoned and no response of that connection still to be written: whatever the
    -- connections do afterwards, the data stay as the panicking statement left them, and no
    -- statement is answered any more. What a client was sent, and what was still to be written to
    -- it at the panic, make up what it is sent and what is still to be written to it afterwards.
    pub panic-silences :
        (srv : Server) (i : ℕ) (c : Connection) (sql : String) (rest : List ℕ) (f : Fault) (n : ℕ)
        (now : Server)
        → srv.exited ≡ false
        → srv.poisoned ≡ false
        → HashMap.get srv.connections i ≡ some c
        → is_ready c ≡ true
        → read_frame c.input ≡ got sql rest
        → (handle_statement parse_sql fuel srv.db c.session sql).0 ≡ panicked f
        → Reached parse_sql fuel format (serve parse_sql format fuel srv i) n now
        → (now.db ≡ (handle_statement parse_sql fuel srv.db c.session sql).1)
          × ((j : ℕ) → sent now j ++ unsent now j ≡ sent srv j ++ unsent srv j)
    panic-silences srv i c sql rest f n now up free at run e fault r =
        let h = handle_statement parse_sql fuel srv.db c.session sql in
        let c' : Connection = record c { input = rest } in
        let after =
          serve-round srv i c up at run
          ∙ round-locked srv i c sql rest e
          ∙ locked-answered srv i c' sql free
          ∙ answered-broken srv i c' h.0 h.1 h.2 f fault in
        let s = Reached-IsSilent (rw after refl) r in
        (
          s.kept ∙ ap (λ x. x.db) after,
          λ j.
              s.quiet j
              ∙ ap (λ x. promised x j) after
              ∙ put-promised srv i c (record c' { session = h.2; running = false }) at refl j,
        )
