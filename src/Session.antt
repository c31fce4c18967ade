-- ===== src/Session.antt =====
-- src/session.rs: the private state of a session. The static counter of session ids is passed in.
use volcano_db.Base.{ℕ, ◌+◌, ◌%◌, ◌^◌, Option, none}

pub record SessionState : Type 0 where
  pub session_id : ℕ
  pub current_tx_id : Option ℕ
  pub cr_scn : ℕ

-- SessionState::new at a value of SESSION_SEQ, and the counter's next value
unfoldable pub new_session : ℕ → SessionState × ℕ
new_session seq =
    (record { session_id = seq; current_tx_id = none; cr_scn = 0 }, (seq + 1) % 2 ^ 64)
