-- ===== src/Lib.antt =====
-- Verification of xnc, the remote operation platform: the Go code that decides who may connect,
-- control, relay and display.
--
-- The parts and the files:
--   Rtv/Arbiter: src/rtv/arbiter.go. The record `Arbiter` is the struct; `grant`, `take`,
--   `release`, `holder`, `touch` and `drop_session` are its methods. Moves treats any call on a
--   node, Away a session without its lease, Control the promises to a viewer.
--   Rtv/Ticket: src/rtv/ticket.go. `Signer` with `host_ticket_for`, `viewer_ticket` and
--   `session_data_ticket`; Verifier has `verify`, `set_keys` and `kill`. Check is about single
--   tokens, Issue about the cache of host tickets, Life about expiry and tombstones.
--   Rtv/Hub: src/rtv/relay.go. `Hub` has the hosts and the arbiter; the methods are the functions of
--   the same names. Media has the media packets, Control is about input, Binding about the viewers of
--   a host.
--   Ipc/Frame: src/proto/ipc/frame.go. `encode`, `decode`, `decode_header`, `read_frame` on lists
--   of bytes; RoundTrip, Accepted and Stream are their laws.
--   Ipc/Handshake: src/proto/ipc/handshake.go, the payloads and proofs of the authentication.
--   Server/Session: src/server/internal/session/manager.go. `Manager` holds the table of sessions
--   and the input leases of the nodes. Create, Attach, Control, Close and Sweep have the methods;
--   Run has any sequence of calls; Evolves is the relation by which every method but `create`
--   changes the table; Limits, Tokens, Leases and Closing have the laws.
--   Server/RtvPool: src/server/internal/rtvpool/pool.go. `assign` and `assign_data` choose a relay
--   among the connections; Control has the messages, the connections and the probes.
--   Server/Registry: src/server/internal/registry/registry.go.
--   Server/Db: src/server/internal/db. `Store` has the tables; the children have the statements of
--   sqlc/*.sql.go, with the keys, unique indexes and foreign keys of migrations/*.sql.
--   Server/Api: src/server/internal/api and src/server/internal/bootstrap. A handler is an `Action`,
--   a do block of statements that an error reply ends early; Roles, Members, Clusters, Admin, Enroll,
--   Register, Move, RenameNode, Users, Personal and FirstBoot have the handlers of the files
--   of those names, Run any sequence of requests. Writes takes every handler apart into single
--   statements; Owners, Admins, NodeKeys and Uses have the invariants of the tables, Allowed the rights,
--   Undone the error replies, Pays, Names, Sound and Orphans single handlers.
--   Agent/Display: src/agent/display/display.go. Manager has the methods, Ownership and Policy the
--   laws of any sequence of events.
--   Agent/Updater: src/agent/updater/updater.go. Version is the order of versions, Numbers their
--   numbers, Disk the state directory, Throttle the failures and the blacklist; Rollback, Apply and SelfCheck have the
--   operations; Operations has any sequence of them. Guards, Blacklist, Life, Trim, Backoff, Stash and
--   Restore have the laws.
--   Relay/Router: src/relay/cmd/xnc-relay/sessions.go. `attach`, `expire_unjoined`, `pump_end` and
--   `kill` are its critical sections, Legs has the handlers. Runs has any sequence of steps; Sound and Closing the
--   invariant, Phases, Reports, Once, Seats and Admission the laws.
--   Prelude: tests, lists, maps, the rows of tables and decimal numbers that all parts use.
--
-- How they meet: the pool hands out a relay, the signer a ticket for it, the relay's verifier takes
-- the ticket and its arbiter gives out the control of a node. The session router takes the tickets for
-- session legs from the same verifier. The session manager keeps the same
-- kind of lease on the server; Server/Session/Leases compares the two.
--
-- Conventions: a method that runs under its mutex is one step; it takes the reading of the clock as
-- `now`, in nanoseconds, and random values as arguments. A Go map is an association list, visited
-- in the order of the list. What a method does outside its own state is a list of effects. Four
-- loops need fuel: the wait of the updater's self-check, one round more than the waits of two seconds that
-- are longer than the window together; the search for the name of a node, a round for each node and one more; and the
-- attempts at a move and at a personal cluster, whose own tests end them with the fuel. Every other
-- loop is over a list. Which statements of a request the database fails to carry out, and the library
-- functions that handlers call (uuid, bcrypt, base64, the JSON bodies), are in the record `Env`, about
-- which the theorems assume nothing unless they say so; one place of a request fails always or never.
--
-- Not modelled: sockets, processes and files; the handlers of the API for sessions, releases,
-- audit, updates, listings and the own profile, what the connection of an agent writes to the tables,
-- and the interleaving of two requests; the set-up of the relay process, the
-- agent's engines, the command line, and all code that is not in Go. json, base64, hex and ed25519 are
-- parameters of Rtv/Ticket, and HMAC-SHA256 is one of Ipc/Handshake. The updater's downloads,
-- SHA-256 and installers are answers that its operations take; the reads of its state files, and the
-- writes whose errors it drops, are taken to succeed. A kill of the session router is one step, without
-- an end of the session's pump between the removal and the closing of the legs.
pub mod Prelude
pub mod Rtv
pub mod Ipc
pub mod Server
pub mod Agent
pub mod Relay
