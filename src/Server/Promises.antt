-- ===== src/Server/Promises.antt =====
-- What the client of a connection of src/server.rs has been sent, and what is still to be written to
-- it.
use volcano_db.Base.{
  ℕ, ◌≡◌, ◌∙◌, ap, inl, inr, false, String, some, none, List, [], ◌++◌, ◌==◌, nat_eq, arith, sym,
  beq-cases, Option, if◌then◌else◌,
}
use volcano_db.HashMap
use volcano_db.HashMap.{HashMap, get-insert}
use volcano_db.Platform.{Platform}
use volcano_db.Protocol.Frames.{write_frame}
use volcano_db.Server.{Server, Connection, put, send}

module _ ⦃p : Platform⦄ where
  -- The bytes of a response that is still to be written.
  abbrev pub frame_of : Option String → List ℕ
  frame_of none = []
  frame_of (some text) = write_frame text

  -- What the client of a connection was sent, and with the response that is still to be written.
  abbrev pub sent : Server → ℕ → List ℕ
  sent srv j = elim (HashMap.get srv.connections j) [ none ↦ [] | some c ↦ c.output ]

  abbrev pub unsent : Server → ℕ → List ℕ
  unsent srv j = elim (HashMap.get srv.connections j) [ none ↦ [] | some c ↦ frame_of c.pending ]

  abbrev pub all_of : Connection → List ℕ
  all_of c = c.output ++ frame_of c.pending

  abbrev pub promised : Server → ℕ → List ℕ
  promised srv j = sent srv j ++ unsent srv j

  pub promised-insert :
      (srv : Server) (i : ℕ) (c : Connection) (j : ℕ)
      → promised (put srv i c) j ≡ (if i == j then all_of c else promised srv j)
  promised-insert srv i c j = ground (arith, get-insert srv.connections i c j)

  promised-at :
      (srv : Server) (i : ℕ) (c : Connection)
      → HashMap.get srv.connections i ≡ some c
      → promised srv i ≡ all_of c
  promised-at srv i c at =
      ap
        (λ o.
          elim o as (λ _. List ℕ) [ none ↦ [] | some c ↦ c.output ]
          ++ elim o as (λ _. List ℕ) [ none ↦ [] | some c ↦ frame_of c.pending ])
        at

  pub put-promised :
      (now : Server) (i : ℕ) (c c' : Connection)
      → HashMap.get now.connections i ≡ some c
      → all_of c' ≡ all_of c
      → (j : ℕ) → promised (put now i c') j ≡ promised now j
  put-promised now i c c' at e j = elim (beq-cases i j) [
    | inl (t, same) ↦
        promised-insert now i c' j
        ∙ ap (λ b. if b then all_of c' else promised now j) t
        ∙ e
        ∙ sym (promised-at now i c at)
        ∙ ap (promised now) same
    | inr ne ↦ promised-insert now i c' j ∙ ap (λ b. if b then all_of c' else promised now j) ne
  ]

  pub send-put :
      (srv : Server) (i : ℕ) (c : Connection) (text : String)
      → HashMap.get srv.connections i ≡ some c
      → srv.exited ≡ false
      → c.pending ≡ some text
      → send srv i ≡ put srv i (record c { pending = none; output = c.output ++ write_frame text })
  unfolding send
  send-put srv i c text at up wait =
      ap
        (λ o. elim o as (λ _. Server) [
          | none ↦ srv
          | some c ↦ if srv.exited then srv else written c c.pending
        ])
        at
      ∙ ap (λ b. if b then srv else written c c.pending) up
      ∙ ap (written c) wait
    where
      written : Connection → Option String → Server
      written c o = elim o as (λ _. Server) [
        | none ↦ srv
        | some text ↦ put srv i (record c { pending = none; output = c.output ++ write_frame text })
      ]
