-- ===== src/Client/Host/Tests.antt =====
-- A login, and a stream of signals that ends.
use yamrp.Prelude.{Option, String, none, some, ◌↔◌, ◌≡◌}
use yamrp.Errors.{Error}
use yamrp.Client.Host.{Host, LoginResponse, host_login, host_login-ok, ok}

abbrev response : LoginResponse
response = record { host_id = "h"; token = some "t"; client_secret = some "s" }

abbrev host : Host
host = record {
  auth_token = "t";
  invitation_token = "s";
  user = record { token = "t"; id = "h" };
  addr = "localhost:8000";
  host_id = "h";
}

abbrev accepts : String → Option Error
accepts host_id = none

host_login-ok_example : (host_login host.addr accepts (some response) none ≡ ok host) ↔ (
    (◌≡◌ {A = Option Error} none none)
    × (response.token ≡ some host.auth_token)
    × (response.client_secret ≡ some host.invitation_token)
    × (accepts response.host_id ≡ none)
    × (host.host_id ≡ response.host_id)
    × (host.addr ≡ host.addr)
    × (host.user ≡ record { token = host.auth_token; id = response.host_id }))
host_login-ok_example = host_login-ok host.addr accepts response none host
