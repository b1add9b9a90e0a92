-- ===== src/Cmd/Yamsrv.antt =====
-- cmd/yamsrv/main.go: the address that the server listens on. What net.Listen returns is a parameter.
use yamrp.Prelude.{Option, String, if◌then◌else◌, none, refl, some, str_eq, ◌≡◌}
use yamrp.Errors.{Error}

-- Serve runs on a listener, which does not come back before the listener fails; or main panics.
pub data Outcome : Type 0 where
  serves : (addr : String) → Outcome
  panics : Error → Outcome

-- grpcURL, given what os.Getenv returns for GRPC_URL
pub grpc_url : (env : String) → String
grpc_url env = if str_eq env "" then "0.0.0.0:6666" else env

pub main : (env : String) → (net_listen : (network addr : String) → Option Error) → Outcome
unfolding grpc_url
main env net_listen = elim (net_listen "tcp" (grpc_url env)) [
  | none ↦ serves (grpc_url env)
  | some e ↦ panics e
]

main_default : main "" (λ network addr. none) ≡ serves "0.0.0.0:6666"
unfolding main grpc_url
main_default = refl
