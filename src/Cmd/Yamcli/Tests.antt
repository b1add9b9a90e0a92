-- ===== src/Cmd/Yamcli/Tests.antt =====
-- Runs of the command line.
use yamrp.Prelude.{List, Option, String, [], arith, eq_iff, insert, none, refl, some, ◌∷◌, ◌≡◌}
use yamrp.Cmd.Yamcli.{
  FlagSet, init_client_flag, main, main-client_no_token, required, starts_client,
}

-- A parser that accepts no arguments, and the three of a user name and a password.
abbrev parse_none : FlagSet → List String → Option FlagSet
parse_none fs [] = some fs
parse_none fs (u ∷ []) = some (insert (insert fs "username" u) "password" "pw")
parse_none fs _ = none

client_without_token :
    main parse_none "localhost:6666" ("yamcli" ∷ "client" ∷ "neo" ∷ [])
    ≡ starts_client "localhost:8000" "neo" "pw" "REQUIRED"
unfolding init_client_flag
client_without_token =
    main-client_no_token parse_none "localhost:6666" "yamcli" ("neo" ∷ []) _ "localhost:8000" "neo"
      "pw" refl refl refl refl refl (ground (arith, eq_iff "neo" required))
      (ground (arith, eq_iff "pw" required))
