-- ===== src/Lib.antt =====
-- The AC2 reference implementation: agents ask a wallet to sign and to issue keys over a paired
-- channel.
--
-- packages/ac2-sdk has the messages (Sdk/Message: schema/types.ts, protocol/messages.ts), the client
-- that sends requests and matches the replies (Sdk/Client: client.ts, protocol/handlers.ts) and the
-- `did:key` values that name the parties (Sdk/Did: signaling/did.ts). packages/ac2-cli is the daemon;
-- Cli/State is its state file (identity/state.ts), with one function for each exported writer, and
-- Cli/Broker its wallet connection (daemon/broker.ts, identity/binding.ts): Cli/Broker/Backoff has
-- the delays of the reconnect loop.
-- Cli/Control is the control socket (control/protocol.ts, server.ts and client.ts of
-- packages/ac2-cli): Lines the line buffer of either end, Frames the frames, Client and Server the two
-- ends, Exchange both together. Hub and Restart are of control/agent.ts: the events of an agent's
-- session, and what is done about the daemon that is found. Cli/Daemon is `runDaemon`
-- (daemon/run.ts), which answers the requests of the socket from the broker and the state file.
-- Cli/Gateway is the adapter that runs agents over an OpenClaw gateway (runtime/gateway/adapter.ts and
-- wallet-frames.ts): Values what it reads of a payload, Tools the output of tools, Frames what the wallet
-- is sent, Events and Runs a run of the agent, Turns one message of the wallet from its arrival to its
-- end, History and Threads what is replayed, and Link the connection and its timers.
-- OpenClaw/Sshsig is the wire format of git signatures in packages/ac2-open-claw-reference
-- (src/git/sshsig.ts), whose lengths are 32 bits wide; base64 and hashes are outside the model.
-- Common holds what these share. A function keeps its name, in snake case, and its order of
-- arguments; an object is a record, and a method takes and returns the record.
--
-- `Client` is the state of an `Ac2Client`. A promise is a number, and `settled`, `sent`, `handled`,
-- `unknown` and `errors` record in order what the client does to the outside. `Event` is a method
-- call or a callback; events come in any order. A close of the transport is an event of its own,
-- which `close` only asks for. What a responder returns comes with the event that resumes it.
--
-- In Sdk/Did a text is a list of code units. A number that base conversion carries is unbounded:
-- in the source it stays below 2 ^ 31, since a digit is below 256 or below 58. The inner loop on a
-- carry takes the carry as fuel, which is enough because each round divides it. The register of
-- base32 is 32 bits wide in the source and in the model. `Buffer.from(s, 'base64')` is a
-- parameter, of which only that it yields bytes is assumed.
--
-- `Disk` holds the state that a process reads back. A write may fail, and then the file keeps its
-- contents. Times and fresh ids are arguments. A file that is not JSON is not modelled, nor are two
-- processes that write at once.
--
-- `Broker` holds the variables of `createConnectionBroker`, and a step is the code between two
-- `await`s, with what it awaits as an argument. A pass of the reconnect loop is told how its session
-- ended. The keystore, the log and the announcements of conversations are left out.
--
-- On the control socket a frame is a JSON value, and what is written is recorded with the socket. The
-- bytes between the ends are lists of code units, in chunks cut anywhere; `JSON.parse` and
-- `JSON.stringify` are parameters. The data callback has one more round of fuel than its buffer has
-- code units, which is enough because each round takes a newline. A number is natural. `Daemon` holds
-- the variables of `runDaemon`, and a client is known by its id; a step is one request or callback.
-- The fields `armings` and `pair_starts` count calls. White space around a stored connection id is not
-- modelled.
--
-- In Cli/Gateway a value has its strings by code units, and its numbers are natural. What a turn awaits
-- is an argument, and so are the events that come while it is the active run: another turn that takes
-- its place only makes them fewer. Frames are recorded in the order in which they are sent. The digits of
-- a number have one more round of fuel than the number, which is enough because each round divides it.
-- `toLowerCase` is a parameter. The config and the device identity of the gateway are left out.
--
-- Sdk/Transport has the in-memory pair of transport/index.ts, whose microtasks are a queue, and the
-- routing of payloads, with isAc2Message of schema/decoder.ts. The white space of `trim` beyond code
-- unit 255 is not modelled there. Sdk/Liquid models the link to a wallet of LiquidAuthChannelProvider: a step is the code between two
-- `await`s or one callback, with what the signaling client answers as the event. That a torn-down peer
-- does not come up, and that a socket that was closed does not come back, is how the signal client and
-- socket.io behave. Cli/Gateway/Client models the gateway's RPC client, of a frame what it reads.
--
-- Not modelled: WebRTC and the signaling server, the OS keyring, the loading of adapters, the gateway's
-- process, the data channels, the validators and the x402 flows, and the command line: they are calls of
-- external services and glue around them.
pub mod Common
pub mod Sdk
pub mod Cli
pub mod OpenClaw
