-- ===== src/Client.antt =====
-- src/client.rs: the loop of the client, from the lines that are typed to the frames that are sent
-- and the responses that are shown. The banner and the two prompts are left out.
pub mod Conversation
use Prim.Native.Char.{code}
use Prim.Native.String.{[] as ε, ◌∷◌ as ◌◂◌}
use text.Mathlib.Text.{starts_with}
use volcano_db.Base.{
  ℕ, Bool, true, false, String, List, [], ◌∷◌, ◌++◌, ◌==◌, string_eq, ◌||◌, ◌&&◌, nat_beq,
  if◌then◌else◌,
}
use volcano_db.Text.{◌^^◌, trim, text_is_empty}
use volcano_db.Protocol.Frames.{Read, got, unexpected_eof, invalid_utf8, write_frame, read_frame}

-- `str::ends_with` on a character
unfoldable pub ends_with : ℕ → String → Bool
ends_with ch ε = false
ends_with ch (c ◂ s) =
    let rest = ends_with ch s in if text_is_empty s then nat_beq (code c) ch else rest

-- `str::trim_end_matches` on a character
unfoldable pub trim_end_matches : ℕ → String → String
trim_end_matches ch ε = ε
trim_end_matches ch (c ◂ s) =
    let rest = trim_end_matches ch s in
    if nat_beq (code c) ch && text_is_empty rest then ε else c ◂ rest

-- Why the loop ended: the input did, `exit` was typed, or a response could not be read.
pub data Ended : Type 0 where
  end_of_input quit lost : Ended

-- The lines of the statement so far, what the server has sent and is not read yet, what was sent
-- to it, and the responses shown.
pub record Client : Type 0 where
  pub input : String
  pub incoming : List ℕ
  pub outgoing : List ℕ
  pub shown : List String

abbrev pub is_quit : String → Bool
is_quit trimmed = trimmed == "exit" || trimmed == "quit"

abbrev pub is_command : String → Bool
is_command trimmed = starts_with trimmed "/"

abbrev pub is_complete : String → Bool
is_complete input = ends_with b';' (trim input)

-- `input.trim().trim_end_matches(';').trim()`
abbrev pub statement_of : String → String
statement_of input = trim (trim_end_matches b';' (trim input))

-- A frame out, its response in, and the input cleared; `false` where the response is not read.
unfoldable pub exchange : Client → String → Client × Bool
exchange c sql =
    let sent = record c { outgoing = c.outgoing ++ write_frame sql } in
    elim (read_frame c.incoming) [
      | got resp rest ↦
          (record sent { input = ""; incoming = rest; shown = c.shown ++ (resp ∷ []) }, true)
      | unexpected_eof ↦ (sent, false)
      | invalid_utf8 ↦ (sent, false)
    ]

-- What a line does, unless it ends the loop.
unfoldable pub read_line : Client → String → Client × Bool
unfolding exchange ends_with trim_end_matches
read_line c line =
    let input = c.input ^^ line in
    if is_command (trim line)
    then exchange c (trim line)
    else if is_complete input
    then (if text_is_empty (statement_of input)
        then (record c { input = "" }, true)
        else exchange (record c { input = input }) (statement_of input))
    else (record c { input = input }, true)

-- The loop, on the lines that are typed.
unfoldable pub run : Client → List String → Client × Ended
unfolding read_line
run c [] = (c, end_of_input)
run c (line ∷ rest) =
    let (c', alive) = read_line c line in
    let later = run c' rest in
    if is_quit (trim line) then (c, quit) else if alive then later else (c', lost)
