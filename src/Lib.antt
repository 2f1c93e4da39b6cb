-- ===== src/Lib.antt =====
-- OpenPortal passes jobs between agents: a portal sends a command along a path of agents (a
-- destination), each agent keeps a board of the jobs that it shares with each peer, and the boards
-- of two peers follow each other by messages over encrypted connections. This library models the
-- parts on which that rests, as functions translated from the source, and proves what makes them
-- correct.
--
-- The parts, and where they stand:
-- - Base: the helpers. Texts are lists of code points (Base/Text); a HashMap is an association list
--   in an order of which nothing is assumed (Base/Assoc); bit operations on words (Base/Bits).
-- - Error (templemeads/src/error.rs): the error values. The text of a message is kept only where the
--   program reads it again.
-- - Replay (paddington/src/anti_replay.rs): `ReplayWindow`, the sliding bitmap of 16 words of 64 bits,
--   and `HandshakeNonceState`, one window for each of the last eight incarnations of a peer. The
--   loops over words run the number of rounds that the source gives.
-- - Destination (templemeads/src/destination.rs): a path of agents, its text, and where an agent stands
--   on it (`position`, `next`, `previous`); lists of destinations.
-- - Validate (templemeads/src/validate.rs): the checks of the names that reach the systems behind the
--   agents. Portal (templemeads/src/portal_identifier.rs) and Peer (templemeads/src/agent.rs) are the
--   names of portals and of connected agents.
-- - Routes (templemeads/src/portalroutes.rs): `RouteTable`, by which an agent learns from its peers how
--   portals are reached. A function that takes the lock is one step.
-- - Job (templemeads/src/job.rs, templemeads/src/joberror.rs): a job, its states (Job/States), the
--   operations that change its state (Job/Operations), what is read from it (Job/Results) and the
--   errors of failed jobs (Job/Failures). The program's `Domain` (templemeads/src/domain.rs) is a
--   parameter: a type of instructions with its parser, and the kinds of errors that it knows.
-- - Board (templemeads/src/board.rs, templemeads/src/command.rs): the board of the jobs that an agent
--   shares with one peer: `add` (Board/Add), the other operations (Board/Operations) and the removal of
--   expired jobs (Board/Expiry). `add` calls the operations of Job to clamp the expiry of a job, to
--   make it a duplicate of another or to finish its duplicates.
-- - Transfer (templemeads/src/state.rs, templemeads/src/job.rs): the boards of all peers and the
--   operations by which a job goes to another agent: `put`, `update`, `received`, `delete` and the like
--   (Transfer), `wait` (Transfer/Waiting), `sync_from_peer`, `send_queued` and `virtual_update`
--   (Transfer/Syncing), `clean_boards` (Transfer/Cleaning). They use the operations of Job and Board.
--   `send_to` is a parameter, and so is what happens while a task waits for a job. `wait` runs at most ten
--   rounds, as in the source. `put`, `update`, `delete` and the like are one step each, although the code
--   lets go of the board while `send_to` runs: what other tasks do to the boards in that time is left out.
-- - Handler (templemeads/src/handler.rs): what an agent does with a job that a peer puts, updates or
--   deletes: the checks of the routes of portals, the step by where the agent stands on the path of the
--   job, and the answer to the sender (Handler, Handler/Puts), and what a soft restart turns away
--   (Handler/Commands). It uses Routes, Destination and Transfer. The runner of the service is a function
--   that may change the boards, tell listeners and send; what other tasks do meanwhile is part of it. The
--   wait for a peer to connect is one step with an answer. The loop that waits for the original of a
--   duplicate has one round of fuel, since `wait` answers only with a finished job or an error.
-- - Relay (paddington/src/relay.rs): sessions between two agents that reach each other only through a
--   proxy: the tables of a process (Relay), the handshake (Relay/Bootstrap), what an envelope does
--   (Relay/Receive), configuration and the proxy (Relay/Proxy). It uses the windows of Replay. A run is any
--   sequence of steps (Relay/Once). `bootstrap` is cut in two where it waits for the answer, and
--   `handle_incoming_envelope` before it records the nonce. Every other function is one step, also where
--   it waits: `handle_start` sends its answer between the check for replay and the new session, and
--   takes the generation of the session before the lock; no other step comes between these.
--   Encryption and serde are a record of functions, with their laws as hypotheses where a theorem needs
--   them (Relay/Delivery, Relay/Handshake).
-- - Identifier (greatwestern/src/grammar.rs): the identifiers of projects and users and their mappings to
--   local groups and users, on top of Validate.
--
-- Conventions. A number of the source is a natural number; where a `u64` may wrap, the remainder is
-- written out (`wrapping_add`), and where it saturates, the minimum. `Utc::now()` is an argument, read
-- once for an operation, and an instant is the number of nanoseconds since the earliest `DateTime`.
-- A random `Uuid` is its printed text, an argument where it is made. The sender half of a channel is
-- a number, and what is sent is returned as a list of pairs in the order of sending. A function that
-- changes `self` returns the new value. Log messages are left out. Fuel occurs where a count is printed
-- in decimal, as 20 digits hold every 64-bit number, and in the wait for a duplicate of Handler.
--
-- Not modelled: the direct connections and their handshake (paddington/src), whose cryptography and
-- network are external; the registry of agents and the control messages that carry no job; the
-- bridge and the main programs of the agents; the instructions of the grammar beyond its identifiers and
-- the reports of usage (greatwestern/src); the clients of Slurm, FreeIPA and the file system; the Python
-- bindings.
pub mod Base
pub mod Error
pub mod Destination
pub mod Replay
pub mod Validate
pub mod Peer
pub mod Portal
pub mod Routes
pub mod Job
pub mod Board
pub mod Identifier
pub mod Transfer
pub mod Handler
pub mod Relay
