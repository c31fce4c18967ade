-- ===== src/Tests/Talking.antt =====
-- The client on three typed lines, and the theorems about it at these inputs.
use volcano_db.Base.{◌≡◌, refl, some, String, List, [], ◌∷◌, ◌++◌, arith}
use volcano_db.Protocol.Frames.{write_frame}
use volcano_db.Client.{Client, run}
use volcano_db.Client.Conversation.{Answered, run-Answered, read_frames, statements_arrive}
use volcano_db.Tests.Evaluate.{everything}

-- A statement over two lines, a command, and the end.
abbrev typed : List String
typed = "SELECT id\n" ∷ " FROM users ; \n" ∷ "/status\n" ∷ "quit\n" ∷ "SELECT 1;\n" ∷ []

abbrev asked : List String
asked = "SELECT id\n FROM users" ∷ "/status" ∷ []

abbrev replies : List String
replies = "1\n2" ∷ "ok" ∷ []

abbrev talker : Client
talker = record {
  input = "";
  incoming = write_frame "1\n2" ++ (write_frame "ok" ++ []);
  outgoing = [];
  shown = [];
}

run-Answered_example : Answered talker asked replies [] (run talker typed)
unfolding everything
run-Answered_example =
    run-Answered typed talker replies [] refl ((omega arith), (omega arith, tt)) refl

statements_arrive_example : read_frames 2 (run talker typed).0.outgoing ≡ some (asked, [])
unfolding everything
statements_arrive_example =
    statements_arrive typed talker replies [] refl refl (omega arith, (omega arith, tt))
      (omega arith, (omega arith, tt)) refl
