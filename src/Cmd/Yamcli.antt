-- ===== src/Cmd/Yamcli.antt =====
-- cmd/yamcli/main.go: which command is run, with which flags.
-- A flag set is its values by name. What flag.Parse makes of the arguments is a parameter of the
-- model; `none` is its exit on arguments that it refuses.
pub mod Start
mod Tests
use yamrp.Prelude.{
  List, Map, Option, String, [], arith, eq_iff, if◌then◌else◌, insert, no_entries, none, refl, some,
  str_eq, ◌↔◌, ◌∷◌, ◌≡◌, ◌≢◌,
}

-- REQUIRED
abbrev pub required : String
required = "_REQUIRED"

abbrev pub FlagSet : Type 0
FlagSet = Map String

-- initHostFlag, given the value of grpcURL
pub init_host_flag : String → FlagSet
init_host_flag grpc_url =
    insert
      (insert (insert (insert no_entries "server" grpc_url) "addr" "localhost:8000") "username"
        required)
      "password" required

-- initClientFlag; the default of the token is written `REQUIRED` in back quotes, a string of its own
pub init_client_flag : String → FlagSet
init_client_flag grpc_url =
    insert
      (insert
        (insert (insert (insert no_entries "server" grpc_url) "addr" "localhost:8000") "username"
          required)
        "password" required)
      "token" "REQUIRED"

-- How the program goes on.
pub data Outcome : Type 0 where
  starts_host : (addr username password : String) → Outcome
  starts_client : (addr username password token : String) → Outcome
  -- os.Exit(1) after naming a flag, after printing the usage; the exit of flag.Parse; Lookup of a
  -- flag that is not there, whose Value is read through a nil pointer
  misses : String → Outcome
  prints_usage refuses_args panics : Outcome

abbrev with_flag : Option String → (String → Outcome) → Outcome
with_flag none k = panics
with_flag (some v) k = k v

-- The loop over requiredFlag, and what follows it.
pub check_required : FlagSet → List String → Outcome → Outcome
check_required fs [] rest = rest
check_required fs (name ∷ names) rest =
    let more = check_required fs names rest in
    with_flag (fs name) (λ v. if str_eq v required then misses name else more)

pub run_host : FlagSet → Outcome
unfolding check_required
run_host fs = with_flag (fs "addr") λ addr. with_flag (fs "username") λ username.
    with_flag (fs "password") λ password.
      check_required fs ("username" ∷ "password" ∷ []) (starts_host addr username password)

pub run_client : FlagSet → Outcome
unfolding check_required
run_client fs = with_flag (fs "addr") λ addr. with_flag (fs "username") λ username.
    with_flag (fs "password") λ password. with_flag (fs "token") λ token.
      check_required fs ("username" ∷ "password" ∷ "token" ∷ [])
        (starts_client addr username password token)

abbrev parsed : Option FlagSet → (FlagSet → Outcome) → Outcome
parsed none k = refuses_args
parsed (some fs) k = k fs

-- A host is started from what flag.Parse accepts, and only if nothing required is missing.
abbrev pub HostFlags : Option FlagSet → (addr username password : String) → Type 0
HostFlags o addr username password =
    (fs : FlagSet) × (o ≡ some fs)
    × (fs "addr" ≡ some addr)
    × (fs "username" ≡ some username)
    × (fs "password" ≡ some password)
    × (username ≢ required)
    × (password ≢ required)

host_flags :
    (o : Option FlagSet) (addr username password : String)
    → parsed o run_host ≡ starts_host addr username password
    → HostFlags o addr username password
unfolding run_host
host_flags none a u p h = cc
host_flags (some fs) a u p h = (
  fs,
  refl,
  ground (arith, eq_iff u required, eq_iff p required),
  ground (arith, eq_iff u required, eq_iff p required),
  ground (arith, eq_iff u required, eq_iff p required),
  ground (arith, eq_iff u required, eq_iff p required),
  ground (arith, eq_iff u required, eq_iff p required),
)

flags_host :
    (o : Option FlagSet) (addr username password : String)
    → HostFlags o addr username password
    → parsed o run_host ≡ starts_host addr username password
unfolding run_host
flags_host o a u p h = ground (arith, eq_iff u required, eq_iff p required)

module _ (parse : FlagSet → List String → Option FlagSet) (grpc_url : String) where
  pub main_host : List String → Outcome
  unfolding run_host init_host_flag
  main_host args = parsed (parse (init_host_flag grpc_url) args) run_host

  pub main_client : List String → Outcome
  unfolding run_client init_client_flag
  main_client args = parsed (parse (init_client_flag grpc_url) args) run_client

  -- main, on os.Args
  pub main : List String → Outcome
  unfolding main_host main_client
  main [] = prints_usage
  main (program ∷ []) = prints_usage
  main (program ∷ command ∷ args) =
      if str_eq command "host"
      then main_host args
      else if str_eq command "client"
      then main_client args
      else prints_usage

  -- `yamcli host` starts a host if and only if flag.Parse accepts its arguments, leaves an address,
  -- and leaves a user name and a password that are not the placeholder of a missing flag.
  pub main-host_starts :
      (program : String) (args : List String) (addr username password : String)
      → (main (program ∷ "host" ∷ args) ≡ starts_host addr username password)
        ↔ HostFlags (parse (init_host_flag grpc_url) args) addr username password
  unfolding main
  main-host_starts program args addr username password =
      let o = parse (init_host_flag grpc_url) args in
      (host_flags o addr username password, flags_host o addr username password)

  -- A client whose flag set leaves the token at its default is started all the same, with the word
  -- REQUIRED for a token, once it has an address, a user name and a password.
  pub main-client_no_token :
      (program : String) (args : List String) (fs : FlagSet) (addr username password : String)
      → parse (init_client_flag grpc_url) args ≡ some fs
      → fs "token" ≡ init_client_flag grpc_url "token"
      → fs "addr" ≡ some addr
      → fs "username" ≡ some username
      → fs "password" ≡ some password
      → username ≢ required
      → password ≢ required
      → main (program ∷ "client" ∷ args) ≡ starts_client addr username password "REQUIRED"
  unfolding main
  main-client_no_token program args fs addr username password accepted token a u p named secret =
      ground (arith, eq_iff username required, eq_iff password required)
