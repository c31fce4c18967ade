-- ===== src/Main.antt =====
-- src/main.rs: what the program's arguments select. The usage text is left out.
use volcano_db.Base.{String, Option, none, some, List, ◌==◌, string_eq, get_elem?, if◌then◌else◌}

-- `server::run`, `client::run`, or the message on a mode that is not known
pub data Command : Type 0 where
  server client : String → Command
  unknown : String → Command

abbrev pub arg_or : Option String → String → String
arg_or none d = d
arg_or (some s) d = s

unfoldable pub main : List String → Command
main args =
    let mode = arg_or (get_elem? args 1) "server" in
    let addr = arg_or (get_elem? args 2) "127.0.0.1:3208" in
    if mode == "server" then server addr else if mode == "client" then client addr else unknown mode
