-- ===== src/Client/Host.antt =====
-- client/host.go: `HostLogin`, `newHost`, the listener for offers and `StartAgent`; client/data.go.
-- What gRPC returns is a parameter. Reading a field of a nil message panics.
mod Tests
use yamrp.Prelude.{
  Bool, List, Option, String, [], arith, false, none, refl, some, suc, true, zero, ℕ, ◌++◌, ◌+◌,
  ◌↔◌, ◌∷◌, ◌≡◌,
}
use yamrp.Errors.{Error}
use yamrp.Client.Agent.{Event, Externals, Setup, connect}

-- UserData of client/data.go; its methods are the fields.
pub record UserData : Type 0 where
  pub token : String
  pub id : String

-- proto.InitHostResponse, as far as HostLogin reads it; the two tokens are messages.
pub record LoginResponse : Type 0 where
  pub host_id : String
  pub token : Option String
  pub client_secret : Option String

pub record Host : Type 0 where
  pub auth_token : String
  pub invitation_token : String
  pub user : UserData
  pub addr : String
  pub host_id : String

pub data LoggedIn : Type 0 where
  fails : Error → LoggedIn
  panics : LoggedIn
  ok : Host → LoggedIn

-- newHost, given what the future of NewOfferListener delivers
pub new_host :
    (host_id auth_token invitation_token : String)
    → UserData
    → (addr : String) → Option Error
    → LoggedIn
new_host host_id auth_token invitation_token user addr (some e) = fails e
new_host host_id auth_token invitation_token user addr none = ok (record {
  auth_token = auth_token;
  invitation_token = invitation_token;
  user = user;
  addr = addr;
  host_id = host_id;
})

module _ (addr : String) (listen : (host_id : String) → Option Error) where
  -- after LoginHost; ListenNewOffer is called for the identifier that it returned
  abbrev with_tokens : String → Option String → Option String → LoggedIn
  unfolding new_host
  with_tokens host_id none secret = panics
  with_tokens host_id (some token) none = panics
  with_tokens host_id (some token) (some secret) =
      new_host host_id token secret (record { token = token; id = host_id }) addr (listen host_id)

  -- on what LoginHost returned
  unfoldable pub host_login : Option LoginResponse → Option Error → LoggedIn
  unfolding new_host
  host_login res (some e) = fails e
  host_login none none = panics
  host_login (some res) none = with_tokens res.host_id res.token res.client_secret

  with_tokens-ok :
      (id : String) (token secret : Option String) (h : Host)
      → (with_tokens id token secret ≡ ok h) ↔ (
          (token ≡ some h.auth_token)
          × (secret ≡ some h.invitation_token)
          × (listen id ≡ none)
          × (h.host_id ≡ id)
          × (h.addr ≡ addr)
          × (h.user ≡ record { token = h.auth_token; id = id }))
  unfolding new_host
  with_tokens-ok id none secret h = (λ e. cc, λ e. cc)
  with_tokens-ok id (some token) none h = (λ e. cc, λ e. cc)
  with_tokens-ok id (some token) (some secret) h = (λ e. ground arith, λ e. ground arith)

  -- HostLogin succeeds if and only if the server accepted the login and gave both tokens, and the
  -- call that listens for offers of the new identifier was accepted; the host then holds what the
  -- server gave, and its user is that of the token and the identifier.
  pub host_login-ok :
      (res : LoginResponse) (err : Option Error) (h : Host)
      → (host_login (some res) err ≡ ok h) ↔ (
          (err ≡ none)
          × (res.token ≡ some h.auth_token)
          × (res.client_secret ≡ some h.invitation_token)
          × (listen res.host_id ≡ none)
          × (h.host_id ≡ res.host_id)
          × (h.addr ≡ addr)
          × (h.user ≡ record { token = h.auth_token; id = res.host_id }))
  unfolding host_login
  host_login-ok res (some e) h = (λ k. cc, λ k. cc)
  host_login-ok res none h =
      let both = with_tokens-ok res.host_id res.token res.client_secret h in
      (
        λ k. let (a, b, c, d, e, f) = both.0 k in (refl, a, b, c, d, e, f),
        λ (z, a, b, c, d, e, f). both.1 (a, b, c, d, e, f),
      )

-- The loop of NewOfferListener over the results of Recv: how many agents it starts, and whether it
-- has returned.
pub listen_offers : List (Option Error) → ℕ × Bool
listen_offers [] = (0, false)
listen_offers (some e ∷ rest) = (0, true)
listen_offers (none ∷ rest) = let (n, over) = listen_offers rest in (n + 1, over)

-- StartAgent: the agent of a host, set up under a schedule. What its channel delivers is logged.
pub start_agent : {P D : Type 0} → Externals P D → Host → List Event → Setup P
start_agent ext h es = connect ext h.user.token h.host_id es

abbrev pub signals : ℕ → List (Option Error)
signals zero = []
signals (suc n) = none ∷ signals n

-- The loop starts an agent for each signal before the first error of the stream, io.EOF too, and
-- none after it, whatever the stream would have brought.
listen_offers-stops :
    (n : ℕ) (e : Error) (rest : List (Option Error))
    → listen_offers (signals n ++ some e ∷ rest) ≡ (n, true)
unfolding listen_offers
listen_offers-stops zero e rest = refl
listen_offers-stops (suc n) e rest = ground (arith, listen_offers-stops n e rest)
