-- ===== src/Lib.antt =====
-- Catenary: the client, the hub, the store and the link preview guards, as definitions and theorems.
--
-- Catenary is a messaging server (PostgreSQL behind an HTTP and WebSocket front) and a reference client
-- in Go that its tests drive. Four parts carry the protocol's promises and are modelled here.
--
-- The client (internal/client). A `Device` is a client's memory and the journal that outlives it.
--   Client/State.antt      the records of journal.go and client.go, and the wire records they read
--   Client/Apply.antt      applyLive, applyIntroduction, onReceipt, onReady, applyPage: one step per
--                          section under the client's and the journal's lock
--   Client/CatchUp.antt    catchUp: the loop over /sync, with what other goroutines do in between as lists
--                          of events in each `Round`
--   Client/Journal.antt    Enroll, Reenroll, Rotate, propose, older, SeedCursor: the credential's chain
--   Client/Refresh.antt    refresh.go, exchange: the walk along the chain; the server, the generator and
--                          the other contexts are the fields of `Server`
--   Client/Hold.antt       hold.go: the gate and the backoff of an automatic refresh
--   Client/Flight.antt     refresh, refused, refreshWhenAllowed, refreshAfter401, refreshDueWhenAllowed
--   Client/Refused.antt    refused.go: a token that Catenary refused
--   Client/Terminal.antt   terminal.go, classifyClose, and stop
--   Client/Backoff.antt    backoff.go and the part of Run from the end of a session to the next dial
--
-- The store (internal/store). One transaction is one step, and a statement that fails is a flag of the
-- step's argument.
--   Store/Tables.antt      the tables of the accounts: users, devices, token families, tokens
--   Store/Rotation.antt    RotateRefreshProposing with routeCollision, refusalOutcome, spentTokenOutcome
--                          and invalidateFamily of refresh.go
--   Store/Accounts.antt    tokens.go: the enrolment tokens, bot tokens, Authenticate, the revocation of a
--                          device; Store/Accounts/Calls.antt those calls and the rotation in any order
--   Store/Offboard.antt    offboard.go: DeactivateUser and its reversal
--   Store/Log.antt         the tables that a send, a sync and a receipt share, with the log's counter
--   Store/Uploads.antt     the uploads that a send takes
--   Store/Messages.antt    SendMessage of messages.go, with its retry by the author's client id
--   Store/Sync.antt        Sync: a page of the log for one reader
--   Store/Reads.antt       MarkRead, FirstUnreadSeq, and Hello
--   Store/Marks.antt       metadataBump of metadata.go
--   Store/Rooms.antt       FindOrCreateDirect, CreateGroup and FindOrCreateSelf of metadata.go
--   Store/Sweep.antt       SweepCredentials of sweep.go
--   Store/Fanout.antt      fanout.go: what the hub reads for a frame, and DeadDevices
--   Store/Acts.antt        the calls that write the tables of the log, in any order
--
-- The hub (internal/hub). Hub/Sessions.antt has the table of sessions and the outboxes of hub.go,
-- Hub/Fanout.antt OnNotify, onReadNotify and the gap, Hub/Revoke.antt the revocations, Hub/Typing.antt
-- Handle with the read and the typing frames, and Hub/Steps.antt the step relation of all of them.
--
-- Link previews (internal/linkpreview). LinkPreview/Cache.antt has cache.go, and LinkPreview/Address.antt
-- the address policy of address.go.
--
-- The parts meet at the wire: what the hub's fan-out queues is what Client/Apply handles, and the
-- answers of Store/Rotation are those that Client/Refresh walks by. Delivery.antt gives the client the
-- pages of Store/Sync through wireview's conversion (internal/wireview/sync.go), Delivery/Whole.antt runs
-- the catch-up against the store, and Delivery/Severance.antt the hub's revocation, heard or found
-- at a re-check, after the store's.
--
-- Prelude has the shared names, tests, lists, association lists and integers; Samples the concrete inputs.
--
-- Choices. Ids, tokens, hashes and record bodies are numbers, with 0 for the empty string, since the
-- code only compares them. Times and durations are nanoseconds, with 0 for Go's zero time. A Go map is
-- an association list, and the hub's map of sets one list; a table is a list of its rows in the order of
-- their inserts. The catch-up runs on the list of rounds that it gets, and one round more than the head is
-- enough where the server makes progress. A page of /sync has its limit, 200 by default and 500 at most
-- as the source has it. The walk of an exchange runs on its own bound, the links and walkSlack. The
-- client's trigger count wraps at 2^64; the store's counters are BIGINT columns, whose overflow is left
-- out. A handler of the hub is one step, and a writer's turn another. SHA-256, the jitter, what a draw
-- of a token or an id gives and the world outside the device are parameters; so is how a message's
-- content is rendered.
--
-- A rotation is one step, where the source may take three transactions: the rotation, the reads that
-- explain a refusal, and the invalidation of a family. A commit whose answer is lost counts as a rollback,
-- and the race of two groups with one create key is not reached, since a step reads one state.
--
-- Not modelled: WebSocket and HTTP I/O, timers and logging. Of the store persons.go, roster.go
-- and senderror.go, and in a page the kind, name, muting and other member of a conversation and the
-- columns of an edit. The dial and the heartbeat of the client, the handlers of internal/api, the fetch,
-- the parsing and the limiter of link previews, media, provisioning, configuration, the commands, the web
-- and Dart clients, generated code.
pub mod Prelude
pub mod Client
pub mod Hub
pub mod Store
pub mod Delivery
pub mod LinkPreview
pub mod Samples
