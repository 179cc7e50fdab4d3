-- ===== src/Client/State.antt =====
-- What the reference client keeps: internal/client/journal.go (Credential, ChainLink, Journal)
-- and internal/client/client.go (Faults, Stats, Client), with the wire records that it reads.
--
-- Ids, tokens and record bodies are numbers, since the client only compares them; 0 is the empty
-- string. A time is its nanoseconds, and 0 is Go's zero time, which the code reads as absent.
use catenary.Prelude.{ℕ, Bool, false, Option, List}
use catenary.Prelude.Int.{ℤ}

abbrev pub Uuid : Type 0
Uuid = ℕ

abbrev pub Token : Type 0
Token = ℕ

abbrev pub Time : Type 0
Time = ℕ

-- The empty string.
abbrev pub empty : ℕ
empty = 0

-- time.Second, in nanoseconds.
abbrev pub second : ℕ
second = 1_000_000_000

-- The fields of a wire message that the client reads; `content` is the rest of the record.
pub record Message : Type 0 where
  pub id : Uuid
  pub conversation_id : Uuid
  pub author_id : Uuid
  pub seq : ℕ
  pub log_seq : ℕ
  pub content : ℕ

pub record Conversation : Type 0 where
  pub id : Uuid
  pub content : ℕ

pub record User : Type 0 where
  pub id : Uuid
  pub content : ℕ

-- One page of /sync.
pub record SyncResponse : Type 0 where
  pub log_seq : ℕ
  pub messages : List Message
  pub conversations : List Conversation
  pub users : List User
  pub has_more : Bool

pub record ServerReady : Type 0 where
  pub session_id : Uuid
  pub heartbeat_interval_sec : ℕ
  pub missed_pong_limit : ℕ
  pub log_seq : ℕ

-- Each fault breaks one obligation; the correct client has none of them.
pub record Faults : Type 0 where
  pub cursor_on_live_frames : Bool
  pub dedupe_by_log_seq : Bool
  pub end_catch_up_early : Bool
  pub ignore_retrigger : Bool
  pub skip_wipe : Bool
  pub no_chain : Bool
  pub propose_afresh : Bool
  pub unbounded : Bool
  pub present_refused_token : Bool
  pub never_present_refused_token : Bool
  pub never_terminal : Bool
  pub always_terminal : Bool
  pub keep_held_conversation : Bool
  pub reset_on_any_ready : Bool
  pub no_jitter : Bool

abbrev pub no_faults : Faults
no_faults = record {
  cursor_on_live_frames = false;
  dedupe_by_log_seq = false;
  end_catch_up_early = false;
  ignore_retrigger = false;
  skip_wipe = false;
  no_chain = false;
  propose_afresh = false;
  unbounded = false;
  present_refused_token = false;
  never_present_refused_token = false;
  never_terminal = false;
  always_terminal = false;
  keep_held_conversation = false;
  reset_on_any_ready = false;
  no_jitter = false;
}

pub record Credential : Type 0 where
  pub device_id : Uuid
  pub user_id : Uuid
  pub access_token : Token
  pub access_expires_at : Time
  pub refresh_token : Token
  pub refresh_expires_at : Time
  pub access_issued_at : Time
  pub clock_offset : ℤ

-- One refresh sent: the token presented, and the successor proposed for it.
pub record ChainLink : Type 0 where
  pub token : Token
  pub proposal : Token

-- The durable state, which outlives a client and is shared by every client over it.
pub record Journal : Type 0 where
  pub credential : Option Credential
  pub chain : List ChainLink
  pub last_sent : Time
  pub cursor : ℕ
  pub has_cursor : Bool
  pub messages : List (Uuid × Message)
  pub conversations : List (Uuid × Conversation)
  pub users : List (Uuid × User)
  pub counted : List Uuid
  pub wipes : ℕ

pub data TerminalKind : Type 0 where
  not_terminal terminal_credential terminal_protocol : TerminalKind

-- The counters that the modelled code moves.
pub record Stats : Type 0 where
  pub dials : ℕ
  pub dial_errors : ℕ
  pub readys : ℕ
  pub resyncs : ℕ
  pub discards : ℕ
  pub live_frames : ℕ
  pub introduction_discards : ℕ
  pub pages : ℕ
  pub refreshes : ℕ
  pub refreshes_skipped : ℕ
  pub refresh_errors : ℕ
  pub refresh_walk_backs : ℕ
  pub refreshes_held_unreachable : ℕ
  pub refreshes_held_backoff : ℕ
  pub dials_withheld : ℕ
  pub syncs_withheld : ℕ

-- One client: its configuration, and what it keeps in memory.
pub record Client : Type 0 where
  pub faults : Faults
  pub refresh_enabled : Bool
  pub backoff_min : ℕ
  pub backoff_max : ℕ
  pub killed : Bool
  pub gen : ℕ  -- uint64
  pub done_gen : ℕ  -- uint64
  pub from0 : Bool
  pub in_pass : Bool
  pub connecting : Bool
  pub ready : Bool
  pub session_id : Uuid
  pub interval : ℕ
  pub missed_limit : ℕ
  pub stats : Stats
  pub terminal : TerminalKind
  pub answered_at : Time
  pub refused_token : Token

-- A client and the journal that it writes.
pub record Device : Type 0 where
  pub client : Client
  pub journal : Journal

-- compare.go: one committed message, as the server's own log has it.
pub record LogEntry : Type 0 where
  pub id : Uuid
  pub conversation_id : Uuid
  pub seq : ℕ
  pub log_seq : ℕ
