-- ===== src/Client/Conversation.antt =====
-- Whole conversations of src/client.rs with a server that answers.
use mathlib.Core.List.{append_assoc, append-nil}
use volcano_db.Base.{
  ℕ, zero, suc, ◌<◌, ◌^◌, ◌≡◌, ◌≢◌, refl, ap, sym, ◌∙◌, true, false, String, Option, some, none,
  List, [], ◌∷◌, ◌++◌, length, string_eq, All, if◌then◌else◌, Bool-cases, inl, inr, arith,
}
use volcano_db.Text.{◌^^◌, trim, text_is_empty}
use volcano_db.Protocol.Utf8.{as_bytes}
use volcano_db.Protocol.Frames.{
  got, unexpected_eof, invalid_utf8, write_frame, read_frame, read_frame-write_frame,
}
use volcano_db.Client.{
  Client, Ended, end_of_input, quit, lost, is_quit, is_command, is_complete, statement_of, exchange,
  read_line, run,
}

-- The statements in the lines that are typed, after an input that is not complete yet: a line that
-- starts with a slash, and what stands before a semicolon at the end of a line.
abbrev pub statements : String → List String → List String
statements input [] = []
statements input (line ∷ rest) =
    let joined = input ^^ line in
    let fresh = statements "" rest in
    let more = statements joined rest in
    if is_quit (trim line)
    then []
    else if is_command (trim line)
    then trim line ∷ fresh
    else if is_complete joined
    then (if text_is_empty (statement_of joined) then fresh else statement_of joined ∷ fresh)
    else more

abbrev pub frames : List String → List ℕ
frames [] = []
frames (s ∷ ss) = write_frame s ++ frames ss

abbrev pub Fits : String → Type 0
Fits s = length (as_bytes s) < 2 ^ 32

-- A conversation from a client to one with nothing more to send.
pub record Answered (c : Client) (sqls resps : List String) (more : List ℕ) (done : Client × Ended)
    : Type 0 where
  pub alive : done.1 ≢ lost
  pub sent : done.0.outgoing ≡ c.outgoing ++ frames sqls
  pub read : done.0.incoming ≡ more
  pub shown : done.0.shown ≡ c.shown ++ resps

-- The client after a statement and its response.
abbrev told : Client → String → String → List ℕ → Client
told c sql resp rest = record {
  input = "";
  incoming = rest;
  outgoing = c.outgoing ++ write_frame sql;
  shown = c.shown ++ (resp ∷ []);
}

exchange-told :
    (c : Client) (sql resp : String) (rest : List ℕ)
    → Fits resp
    → c.incoming ≡ write_frame resp ++ rest
    → exchange c sql ≡ (told c sql resp rest, true)
unfolding exchange
exchange-told c sql resp rest h e =
    let f : read_frame c.incoming ≡ got resp rest =
      ap read_frame e ∙ read_frame-write_frame resp rest h in
    rw (f, exchange) refl

told-Answered :
    (c c' : Client) (sql resp : String) (sqls resps : List String) (more : List ℕ)
    (done : Client × Ended)
    → c'.outgoing ≡ c.outgoing ++ write_frame sql
    → c'.shown ≡ c.shown ++ (resp ∷ [])
    → Answered c' sqls resps more done
    → Answered c (sql ∷ sqls) (resp ∷ resps) more done
told-Answered c c' sql resp sqls resps more done e f a = record {
  alive = a.alive;
  sent =
      a.sent
      ∙ ap (λ x. x ++ frames sqls) e
      ∙ append_assoc c.outgoing (write_frame sql) (frames sqls);
  read = a.read;
  shown = a.shown ∙ ap (λ x. x ++ resps) f ∙ append_assoc c.shown (resp ∷ []) resps;
}

-- One line: nothing, or a statement and its response.
run-line :
    (c c' : Client) (line : String) (rest : List String)
    → is_quit (trim line) ≡ false
    → read_line c line ≡ (c', true)
    → run c (line ∷ rest) ≡ run c' rest
unfolding run
run-line c c' line rest h e = rw (h, e) refl

run_quit :
    (c : Client) (line : String) (rest : List String)
    → is_quit (trim line) ≡ true
    → run c (line ∷ rest) ≡ (c, quit)
unfolding run
run_quit c line rest q = rw (q, run) refl

-- The rest of a conversation, for the lines that are left.
abbrev Continues : List String → Type 0
Continues rest =
    (c : Client) (resps : List String) (more : List ℕ)
    → length resps ≡ length (statements c.input rest)
    → All Fits resps
    → c.incoming ≡ frames resps ++ more
    → Answered c (statements c.input rest) resps more (run c rest)

-- Nothing is sent any more.
silent-Answered :
    (c : Client) (ended : Ended) (resps : List String) (more : List ℕ)
    → ended ≢ lost
    → length resps ≡ 0
    → c.incoming ≡ frames resps ++ more
    → Answered c [] resps more (c, ended)
silent-Answered c ended [] more alive l e = record {
  alive = alive;
  sent = sym (append-nil c.outgoing);
  read = e;
  shown = sym (append-nil c.shown);
}
silent-Answered c ended (r ∷ rs) more alive l e = absurd (omega (arith, l))

-- A line that completes a statement.
asked-Answered :
    (c : Client) (input line sql : String) (rest resps : List String) (more : List ℕ)
    → is_quit (trim line) ≡ false
    → read_line c line ≡ exchange (record c { input = input }) sql
    → length resps ≡ length (sql ∷ statements "" rest)
    → All Fits resps
    → c.incoming ≡ frames resps ++ more
    → Continues rest
    → Answered c (sql ∷ statements "" rest) resps more (run c (line ∷ rest))
asked-Answered c input line sql rest [] more nq does l h e ih = absurd (omega (arith, l))
asked-Answered c input line sql rest (r ∷ rs) more nq does l (fits, h) e ih =
    let e' = e ∙ append_assoc (write_frame r) (frames rs) more in
    let c' = told c sql r (frames rs ++ more) in
    rw
      (run-line c c' line rest nq
        (does ∙ exchange-told (record c { input = input }) sql r (frames rs ++ more) fits e'))
      (told-Answered c c' sql r (statements "" rest) rs more (run c' rest) refl refl
        (ih c' rs more (omega (arith, l)) h refl))

-- A line that sends nothing.
quiet-Answered :
    (c : Client) (input line : String) (rest resps : List String) (more : List ℕ)
    → is_quit (trim line) ≡ false
    → read_line c line ≡ (record c { input = input }, true)
    → length resps ≡ length (statements input rest)
    → All Fits resps
    → c.incoming ≡ frames resps ++ more
    → Continues rest
    → Answered c (statements input rest) resps more (run c (line ∷ rest))
quiet-Answered c input line rest resps more nq does l h e ih =
    let a = ih (record c { input = input }) resps more l h e in
    rw (run-line c (record c { input = input }) line rest nq does)
      (record { alive = a.alive; sent = a.sent; read = a.read; shown = a.shown })

line-Answered : (line : String) (rest : List String) → Continues rest → Continues (line ∷ rest)
unfolding read_line
line-Answered line rest ih c resps more l h e =
    let joined = c.input ^^ line in
    elim (Bool-cases (is_quit (trim line))) [
      | inl q ↦
          rw (q, run_quit c line rest q) (silent-Answered c quit resps more (λ x. cc) (rw q at l) e)
      | inr nq ↦ elim (Bool-cases (is_command (trim line))) [
        | inl k ↦
            rw (nq, k)
              (asked-Answered c c.input line (trim line) rest resps more nq (rw (k, read_line) refl)
                (rw (nq, k) at l) h e ih)
        | inr nk ↦ elim (Bool-cases (is_complete joined)) [
          | inr nc ↦
              rw (nq, nk, nc)
                (quiet-Answered c joined line rest resps more nq (rw (nk, nc, read_line) refl)
                  (rw (nq, nk, nc) at l) h e ih)
          | inl d ↦ elim (Bool-cases (text_is_empty (statement_of joined))) [
            | inl z ↦
                rw (nq, nk, d, z)
                  (quiet-Answered c "" line rest resps more nq (rw (nk, d, z, read_line) refl)
                    (rw (nq, nk, d, z) at l) h e ih)
            | inr nz ↦
                rw (nq, nk, d, nz)
                  (asked-Answered c joined line (statement_of joined) rest resps more nq
                    (rw (nk, d, nz, read_line) refl) (rw (nq, nk, d, nz) at l) h e ih)
          ]
        ]
      ]
    ]

-- Against a server that answers each statement in turn, with responses of fewer than 2 ^ 32 bytes:
-- the client sends just the statements in the lines, in order, shows the responses, reads nothing
-- else, and ends with its input or at an exit.
pub run-Answered :
    (lines : List String) (c : Client) (resps : List String) (more : List ℕ)
    → length resps ≡ length (statements c.input lines)
    → All Fits resps
    → c.incoming ≡ frames resps ++ more
    → Answered c (statements c.input lines) resps more (run c lines)
unfolding run
run-Answered [] c resps more l h e = silent-Answered c end_of_input resps more (λ x. cc) l e
run-Answered (line ∷ rest) c resps more l h e =
    line-Answered line rest (λ c rs m. run-Answered rest c rs m) c resps more l h e

-- So many frames off a stream, as the server reads them one by one.
unfoldable pub read_frames : ℕ → List ℕ → Option (List String × List ℕ)
read_frames zero stream = some ([], stream)
read_frames (suc n) stream = elim (read_frame stream) [
  | unexpected_eof ↦ none
  | invalid_utf8 ↦ none
  | got s rest ↦ elim (read_frames n rest) [ none ↦ none | some (ss, end) ↦ some (s ∷ ss, end) ]
]

read_frames-suc :
    (n : ℕ) (stream : List ℕ) (s : String) (rest : List ℕ) (r : List String × List ℕ)
    → read_frame stream ≡ got s rest
    → read_frames n rest ≡ some r
    → read_frames (suc n) stream ≡ some (s ∷ r.0, r.1)
unfolding read_frames
read_frames-suc n stream s rest r h k = rw (h, k, read_frames) refl

read_frames-frames :
    (ss : List String) → All Fits ss → read_frames (length ss) (frames ss) ≡ some (ss, [])
unfolding read_frames
read_frames-frames [] h = refl
read_frames-frames (s ∷ ss) (fits, h) =
    read_frames-suc (length ss) (frames (s ∷ ss)) s (frames ss) (ss, [])
      (read_frame-write_frame s (frames ss) fits) (read_frames-frames ss h)

-- Of a client that starts on a fresh connection, with a server that answers each statement in turn,
-- when the statements and the responses all have fewer than 2 ^ 32 bytes: from the bytes that it sends, frame by frame, the server reads back just the statements in the
-- lines, in order, and then the stream is at its end.
pub statements_arrive :
    (lines : List String) (c : Client) (resps : List String) (more : List ℕ)
    → c.outgoing ≡ []
    → length resps ≡ length (statements c.input lines)
    → All Fits resps
    → All Fits (statements c.input lines)
    → c.incoming ≡ frames resps ++ more
    → read_frames (length (statements c.input lines)) (run c lines).0.outgoing
      ≡ some (statements c.input lines, [])
statements_arrive lines c resps more fresh l h fits e =
    let a = run-Answered lines c resps more l h e in
    ap (read_frames (length (statements c.input lines)))
      (a.sent ∙ ap (λ x. x ++ frames (statements c.input lines)) fresh)
    ∙ read_frames-frames (statements c.input lines) fits
