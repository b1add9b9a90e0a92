-- ===== src/Lib.antt =====
-- YAMRP is a reverse proxy for TCP: a host behind a NAT and its clients meet through a signalling
-- server (gRPC) and then speak over WebRTC data channels. This library models the program's own
-- logic and proves what holds of it.
--
-- Parts and files:
-- - utils/async/future.go, the futures on which the client is built: Async.
-- - server/offerer.go, the service that clients call to send an offer and to wait for the answer and
--   the candidates of the host: Server/Offerer. A state holds the maps, the routers and every
--   goroutine at the point where it waits; an event is one of them going on. A schedule is a list of
--   events, so a theorem over all schedules is one over all interleavings.
--   Server/Offerer/Owners says for whom a channel was made, and Server/Offerer/Lifetimes which
--   goroutine will clear an entry.
-- - server/anserer.go, the service that hosts call to wait for an offer and to answer it:
--   Server/Answerer, built in the same way. Server/Answerer/Frames says what an invariant of its offers
--   has to keep; Schedules is what all machines of this kind share.
-- - server/host.go, the service that tells hosts of offers: Server/Host. HostLifeManager handles one
--   message per event; clients are shared by number, as the pointers are in the code.
-- - client/proxy.go, one proxied connection with its two loops: Client/Proxy.
-- - server/server.go, the services together: Server/Serving has one state of all of them and the
--   channels between them; Server/Serving/Frames says what an invariant of them all has to keep.
--   Server/Offerer/Answers and Server/Answerer/Answers follow the answers through the two services,
--   Server/Offerer/Offers and Server/Answerer/Offers the offers. Server/Offerer/Counts and
--   Server/Answerer/Counts count the answers that are still to be handed over.
--   Server/Answerer/Threads says what an invariant of the goroutines of that service has to keep.
--   After a panic of HostLifeManager nothing goes on, as the process has ended.
-- - server/auth.go, the logins: Server/Auth.
-- - cmd/yamcli/main.go, the command line: Cmd/Yamcli, over a parameter for flag.Parse.
--   cmd/yamcli/client.go and cmd/yamcli/host.go, what the commands then do: Cmd/Yamcli/Start, over a
--   parameter for what the network and the signals return. cmd/yamsrv/main.go: Cmd/Yamsrv.
-- - cmd/_bak/client/main.go and cmd/_bak/server/main.go, earlier programs whose users carry
--   descriptions and candidates by hand: Cmd/Old/Client and Cmd/Old/Server, over parameters for base64,
--   JSON and WebRTC. The goroutines that call AddICECandidate are a list, any of which may go on;
--   Cmd/Old/Client/Turns is about them.
-- - client/agent.go, how the answering end of a connection is set up: Client/Agent. The calls of gRPC
--   and WebRTC are a record of parameters, and the list of actions says what is asked of them. Its
--   goroutine for candidates is Client/Agent/Candidates, and Client/Agent/Channels has the handler of
--   a data channel. Client/Agent/Sending has the same function with its callback that sends candidates,
--   which assigns to a variable of that function.
-- - client/listener.go, the offering end: Client/Listener/Offer has the calls that send the offer and
--   take the answer, Client/Listener/Exchange the exchange of candidates with its goroutine, and
--   Client/Listener/Setup the function that waits for all of them, with the exchange as a part.
--   Client/Listener/Sessions has the table of proxies and the Accept loop.
-- - client/webrtc_abstract.go, the wrapper of a peer connection and its builder: Client/PeerConn, over
--   parameters for WebRTC.
-- - client/host.go and client/data.go, the host that logs in and starts an agent for each offer:
--   Client/Host, which uses Client/Agent.
-- - Chan: buffered channels. Errors: error values and status codes. Prelude: shared names and lemmas.
--
-- Reading the model. A Go map with string keys is its lookup function, for the program never ranges
-- over one. Channels made at run time are numbered in the order in which they are made. A goroutine
-- is an entry of a table, and the entry says where it waits. An unbuffered send and its receive are
-- one event. Identifiers that uuid.New returns are arguments of the events. Timers, contexts and
-- streams are events that the environment chooses, so every timing is covered. A critical section
-- and what follows it up to the next channel operation is one event. Logging is left out.
--
-- Fuel: the outer loop of AwaitUnordered runs on fuel; two rounds are enough, since one round takes
-- a value from each future.
--
-- Not modelled: server/services.go, which holds no logic; client/user.go, whose users nobody makes;
-- client/agent_proxy.go, a struct that nothing uses; utils/mock/listener.go, a listener for tests that
-- was copied from elsewhere; generated code (proto), gRPC, WebRTC, jwt and the log library, which the
-- program calls.
pub mod Async
pub mod Chan
pub mod Client
pub mod Cmd
pub mod Errors
pub mod Prelude
pub mod Schedules
pub mod Server
