-- ===== src/Server/Sessions.antt =====
-- The sessions of the connections of src/server.rs: no two of them hold one transaction.
use mathlib.Core.Option.{some-injective}
use volcano_db.Base.{
  ℕ, ◌<◌, ◌≤◌, ◌+◌, ◌^◌, ◌≡◌, ◌≢◌, ◌⊎◌, ◌∙◌, refl, sym, ap, inl, inr, Bool-cases, Option-cases,
  String, some, none, true, List, [], nat_eq, arith, beq-cases,
}
use volcano_db.HashMap
use volcano_db.HashMap.{HashMap, get-insert}
use volcano_db.Platform.{Platform}
use volcano_db.Outcome.{Outcome}
use volcano_db.Planner.Ast.{Statement}
use volcano_db.Tx.Records.{Serde}
use volcano_db.Tx.Manager.{TransactionManager}
use volcano_db.Session.{SessionState, new_session}
use volcano_db.Handler.Defs.{DatabaseState, Response}
use volcano_db.Handler.Isolation.{Isolates, Holds, same-Isolates}
use volcano_db.Server.{
  Server, Connection, put, connect, answered, is_ready, locked, round, send, serve,
}
use volcano_db.Protocol.Frames.{Read, got, unexpected_eof, invalid_utf8, read_frame}
use volcano_db.Handler.Isolation.{handle_statement-Isolates}
use volcano_db.Handler.Defs.{reply, error, status, crashed, panicked, unfinished, handle_statement}

module _ ⦃p : Platform⦄ where
  -- Every session holds its transaction, and no two connections have the same one.
  pub record AreSettled (m : TransactionManager) (connections : HashMap ℕ Connection) : Type 0 where
    pub own : (i : ℕ) (c : Connection) → HashMap.get connections i ≡ some c → Holds c.session m
    pub apart :
        (i j : ℕ) (c d : Connection) (t : ℕ)
        → HashMap.get connections i ≡ some c
        → HashMap.get connections j ≡ some d
        → c.session.current_tx_id ≡ some t
        → d.session.current_tx_id ≡ some t
        → i ≡ j

  -- A connection after the move is the one that moved or one that was there.
  found :
      (connections : HashMap ℕ Connection) (i : ℕ) (c' : Connection) (j : ℕ) (d : Connection)
      → HashMap.get (HashMap.insert connections i c') j ≡ some d
      → ((j ≡ i) × (c' ≡ d)) ⊎ ((j ≢ i) × (HashMap.get connections j ≡ some d))
  found connections i c' j d h = elim (beq-cases j i) [
    | inl (_, e) ↦ inl (e, some-injective _ _ (ground (arith, get-insert connections i c' j, e, h)))
    | inr ne ↦
        inr (λ e. ground (arith, e, ne), ground (arith, get-insert connections i c' j, ne, h))
  ]

  -- One connection moves on, and the others keep what they have.
  module _ (db : DatabaseState) (connections : HashMap ℕ Connection) (i : ℕ) (c c' : Connection)
      (m : TransactionManager) (settled : AreSettled db.tx_mgr connections)
      (at : HashMap.get connections i ≡ some c) (moved : Isolates db c.session m c'.session) where
    moved-AreSettled : AreSettled m (HashMap.insert connections i c')
    moved-AreSettled = record { own = own'; apart = apart' }
      where
        own' :
            (j : ℕ) (d : Connection)
            → HashMap.get (HashMap.insert connections i c') j ≡ some d
            → Holds d.session m
        own' j d h t a = elim (found connections i c' j d h) [
          | inl (_, e) ↦ moved.holds t (ap (λ x. x.session.current_tx_id) e ∙ a)
          | inr (ne, g) ↦
              let (act, lt) = settled.own j d g t a in
              let grows = moved.grows in
              (
                moved.others t (λ mine. ne (settled.apart j i d c t g at a mine)) lt act,
                omega arith,
              )
        ]

        -- The one that moved shares no transaction with another.
        alone :
            (j : ℕ) (d : Connection) (t : ℕ)
            → j ≢ i
            → HashMap.get connections j ≡ some d
            → c'.session.current_tx_id ≡ some t
            → d.session.current_tx_id ≢ some t
        alone j d t ne g mine a = elim (moved.origin t mine) [
          | inl before ↦ ne (settled.apart j i d c t g at a before)
          | inr new ↦ let (act, lt) = settled.own j d g t a in omega (arith, new, lt)
        ]

        apart' :
            (j k : ℕ) (d e : Connection) (t : ℕ)
            → HashMap.get (HashMap.insert connections i c') j ≡ some d
            → HashMap.get (HashMap.insert connections i c') k ≡ some e
            → d.session.current_tx_id ≡ some t
            → e.session.current_tx_id ≡ some t
            → j ≡ k
        apart' j k d e t h h' a b = elim (found connections i c' j d h) [
          | inl (ei, f) ↦ elim (found connections i c' k e h') [
            | inl (ei', f') ↦ ei ∙ sym ei'
            | inr (ne, g) ↦ elim (alone k e t ne g (ap (λ x. x.session.current_tx_id) f ∙ a) b) [ ]
          ]
          | inr (ne, g) ↦ elim (found connections i c' k e h') [
            | inl (ei', f') ↦
                elim (alone j d t ne g (ap (λ x. x.session.current_tx_id) f' ∙ b) a) [ ]
            | inr (ne', g') ↦ settled.apart j k d e t g g' a b
          ]
        ]

  abbrev pub IsSettled : Server → Type 0
  IsSettled srv = AreSettled srv.db.tx_mgr srv.connections

  -- A connection that keeps its session moves nothing.
  rest-Isolates :
      (db : DatabaseState) (session : SessionState)
      → Holds session db.tx_mgr
      → Isolates db session db.tx_mgr session
  rest-Isolates db session own = same-Isolates db session own db.tx_mgr session refl refl refl

  put-IsSettled :
      (srv : Server) (i : ℕ) (c c' : Connection)
      → IsSettled srv
      → HashMap.get srv.connections i ≡ some c
      → c'.session ≡ c.session
      → IsSettled (put srv i c')
  put-IsSettled srv i c c' settled at e =
      moved-AreSettled srv.db srv.connections i c c' srv.db.tx_mgr settled at
        (rw e (rest-Isolates srv.db c.session (settled.own i c at)))

  module _ ⦃serde : Serde⦄ (parse_sql : String → Outcome (List Statement))
      (format : Response → String) (fuel : ℕ) (srv : Server) (settled : IsSettled srv)
      (lt : srv.db.tx_mgr.next_tx_id + 1 < 2 ^ 64) where
    abbrev Advances : Server → Type 0
    Advances srv' = IsSettled srv' × (srv'.db.tx_mgr.next_tx_id ≤ srv.db.tx_mgr.next_tx_id + 1)

    stays : Advances srv
    stays = (settled, omega arith)

    puts :
        (i : ℕ) (c c' : Connection)
        → HashMap.get srv.connections i ≡ some c
        → c'.session ≡ c.session
        → Advances (put srv i c')
    puts i c c' at e = (put-IsSettled srv i c c' settled at e, omega arith)

    moves :
        (i : ℕ) (c c' : Connection) (db' : DatabaseState) (session' : SessionState)
        → HashMap.get srv.connections i ≡ some c
        → Isolates srv.db c.session db'.tx_mgr c'.session
        → AreSettled db'.tx_mgr (HashMap.insert srv.connections i c')
          × (db'.tx_mgr.next_tx_id ≤ srv.db.tx_mgr.next_tx_id + 1)
    moves i c c' db' session' at moved =
        (moved-AreSettled srv.db srv.connections i c c' db'.tx_mgr settled at moved, moved.slowly)

    answered-Advances :
        (i : ℕ) (c d : Connection) (r : Response) (db' : DatabaseState) (session' : SessionState)
        → HashMap.get srv.connections i ≡ some c
        → Isolates srv.db c.session db'.tx_mgr session'
        → Advances (answered parse_sql format srv i d (r, db', session'))
    unfolding answered
    answered-Advances i c d crashed db' session' at moved = stays
    answered-Advances i c d (panicked f) db' session' at moved = moves i c _ db' session' at moved
    answered-Advances i c d (reply r) db' session' at moved = moves i c _ db' session' at moved
    answered-Advances i c d (error e) db' session' at moved = moves i c _ db' session' at moved
    answered-Advances i c d (status a b e f g) db' session' at moved =
        moves i c _ db' session' at moved
    answered-Advances i c d unfinished db' session' at moved = moves i c _ db' session' at moved

    locked-Advances :
        (i : ℕ) (c : Connection) (rest : List ℕ) (sql : String)
        → HashMap.get srv.connections i ≡ some c
        → Advances (locked parse_sql format fuel srv i (record c { input = rest }) sql)
    unfolding locked
    locked-Advances i c rest sql at = elim (Bool-cases srv.poisoned) [
      | inl b ↦ simp (b, locked) (puts i c _ at refl)
      | inr b ↦
          let h = handle_statement parse_sql fuel srv.db c.session sql in
          simp (b, locked)
            (answered-Advances i c (record c { input = rest }) h.0 h.1 h.2 at
              (handle_statement-Isolates srv.db c.session (settled.own i c at) parse_sql fuel lt
                sql))
    ]

    round-Advances :
        (i : ℕ) (c : Connection)
        → HashMap.get srv.connections i ≡ some c
        → Advances (round parse_sql format fuel srv i c)
    unfolding round
    round-Advances i c at = go (read_frame c.input) refl
      where
        go :
            (r : Read String)
            → read_frame c.input ≡ r
            → Advances (round parse_sql format fuel srv i c)
        go (got sql rest) e = rw (round, e) (locked-Advances i c rest sql at)
        go unexpected_eof e = rw (round, e) (puts i c _ at refl)
        go invalid_utf8 e = rw (round, e) (puts i c _ at refl)

    pub serve-Advances : (i : ℕ) → Advances (serve parse_sql format fuel srv i)
    unfolding serve
    serve-Advances i = elim (Option-cases (HashMap.get srv.connections i)) [
      | inl e ↦ simp (serve, e) stays
      | inr (c, e) ↦ elim (Bool-cases srv.exited) [
        | inl x ↦ simp (serve, e, x) stays
        | inr x ↦ elim (Bool-cases (is_ready c)) [
          | inl r ↦ simp (serve, e, x, r) (round-Advances i c e)
          | inr r ↦ simp (serve, e, x, r) stays
        ]
      ]
    ]

  pub send-db : (srv : Server) (i : ℕ) → (send srv i).db ≡ srv.db
  unfolding send
  send-db srv i = elim (Option-cases (HashMap.get srv.connections i)) [
    | inl e ↦ simp (send, e) refl
    | inr (c, e) ↦ elim (Bool-cases srv.exited) [
      | inl x ↦ simp (send, e, x) refl
      | inr x ↦ elim (Option-cases c.pending) [
        | inl n ↦ simp (send, e, x, n) refl
        | inr (text, s) ↦ simp (send, e, x, s) refl
      ]
    ]
  ]

  pub send-IsSettled : (srv : Server) (i : ℕ) → IsSettled srv → IsSettled (send srv i)
  unfolding send
  send-IsSettled srv i settled = elim (Option-cases (HashMap.get srv.connections i)) [
    | inl e ↦ simp (send, e) settled
    | inr (c, e) ↦ elim (Bool-cases srv.exited) [
      | inl x ↦ simp (send, e, x) settled
      | inr x ↦ elim (Option-cases c.pending) [
        | inl n ↦ simp (send, e, x, n) settled
        | inr (text, s) ↦ simp (send, e, x, s) (put-IsSettled srv i c _ settled e refl)
      ]
    ]
  ]

  pub connect-IsSettled :
      (srv : Server) (i : ℕ) (bytes : List ℕ) → IsSettled srv → IsSettled (connect srv i bytes)
  unfolding connect new_session
  connect-IsSettled srv i bytes settled = record { own = own'; apart = apart' }
    where
      c' : Connection
      c' = record {
        session = (new_session srv.session_seq).0;
        input = bytes;
        pending = none;
        output = [];
        running = true;
      }

      idle : (d : Connection) (t : ℕ) → c' ≡ d → d.session.current_tx_id ≢ some t
      idle d t e a =
          let same : none ≡ some t = ap (λ x. x.session.current_tx_id) e ∙ a in ground (arith, same)

      own' :
          (j : ℕ) (d : Connection)
          → HashMap.get (HashMap.insert srv.connections i c') j ≡ some d
          → Holds d.session srv.db.tx_mgr
      own' j d h t a = elim (found srv.connections i c' j d h) [
        | inl (_, f) ↦ elim (idle d t f a) [ ]
        | inr (ne, g) ↦ settled.own j d g t a
      ]

      apart' :
          (j k : ℕ) (d e : Connection) (t : ℕ)
          → HashMap.get (HashMap.insert srv.connections i c') j ≡ some d
          → HashMap.get (HashMap.insert srv.connections i c') k ≡ some e
          → d.session.current_tx_id ≡ some t
          → e.session.current_tx_id ≡ some t
          → j ≡ k
      apart' j k d e t h h' a b = elim (found srv.connections i c' j d h) [
        | inl (_, f) ↦ elim (idle d t f a) [ ]
        | inr (ne, g) ↦ elim (found srv.connections i c' k e h') [
          | inl (_, f) ↦ elim (idle e t f b) [ ]
          | inr (ne', g') ↦ settled.apart j k d e t g g' a b
        ]
      ]
