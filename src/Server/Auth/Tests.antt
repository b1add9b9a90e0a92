-- ===== src/Server/Auth/Tests.antt =====
-- A login.
use yamrp.Prelude.{Option, String, none, some, ◌↔◌, ◌≡◌}
use yamrp.Server.Auth.{
  InitHostResponse, Signed, announces, login_host, login_host_announces, response_for,
}

abbrev signed : String → Signed
signed id = ("signed", none)

abbrev login : Option String
login = some "neo"

abbrev host : String
host = "host-1"

abbrev response : InitHostResponse
response = response_for host "signed"

login_host_announces_example : (login_host login host signed ≡ announces host response) ↔ (
    (login ≡ some "neo")
    × ((signed host).1 ≡ none)
    × (host ≡ host)
    × (response ≡ response_for host (signed host).0))
login_host_announces_example = login_host_announces login host signed host response
