-- ===== src/Samples/ClientData.antt =====
-- A device, two pages of a log of five entries, and a server that has them.
use catenary.Prelude.{
  ℕ, suc, ◌+◌, ◌*◌, true, false, Option, some, List, [], ◌∷◌, ltb, if◌then◌else◌,
}
use catenary.Prelude.Int.{pos}
use catenary.Client.State.{
  Message, SyncResponse, ServerReady, Stats, Credential, Client, Journal, Device, LogEntry,
  no_faults, not_terminal, second,
}
use catenary.Client.Refresh.{Server, unauthorized}
use catenary.Client.CatchUp.{Round, message, resync}

abbrev pub stats_0 : Stats
stats_0 = record {
  dials = 0;
  dial_errors = 0;
  readys = 0;
  resyncs = 0;
  discards = 0;
  live_frames = 0;
  introduction_discards = 0;
  pages = 0;
  refreshes = 0;
  refreshes_skipped = 0;
  refresh_errors = 0;
  refresh_walk_backs = 0;
  refreshes_held_unreachable = 0;
  refreshes_held_backoff = 0;
  dials_withheld = 0;
  syncs_withheld = 0;
}

abbrev pub phone : Client
phone = record {
  faults = no_faults;
  refresh_enabled = true;
  backoff_min = second;
  backoff_max = 60 * second;
  killed = false;
  gen = 3;
  done_gen = 2;
  from0 = false;
  in_pass = false;
  connecting = false;
  ready = true;
  session_id = 8;
  interval = 30 * second;
  missed_limit = 2;
  stats = stats_0;
  terminal = not_terminal;
  answered_at = 0;
  refused_token = 0;
}

abbrev pub pair : Credential
pair = record {
  device_id = 1;
  user_id = 2;
  access_token = 30;
  access_expires_at = 900 * second;
  refresh_token = 40;
  refresh_expires_at = 9000 * second;
  access_issued_at = second;
  clock_offset = pos 0;
}

abbrev pub message_of : ℕ → ℕ → Message
message_of id log = record {
  id = id;
  conversation_id = 7;
  author_id = 2;
  seq = log;
  log_seq = log;
  content = 0;
}

-- A store that has applied the log up to its first entry.
abbrev pub store_1 : Journal
store_1 = record {
  credential = some pair;
  chain = [];
  last_sent = 0;
  cursor = 1;
  has_cursor = true;
  messages = (11, message_of 11 1) ∷ [];
  conversations = [];
  users = [];
  counted = 11 ∷ [];
  wipes = 0;
}

abbrev pub device_1 : Device
device_1 = record { client = phone; journal = store_1 }

-- The chain after two sends with no answer.
abbrev pub device_2 : Device
device_2 = record device_1 {
  journal = record store_1 {
    chain = record { token = 40; proposal = 41 } ∷ record { token = 41; proposal = 42 } ∷ [];
    last_sent = 100 * second;
  };
}

abbrev pub page_3 : SyncResponse
page_3 = record {
  log_seq = 3;
  messages = message_of 12 2 ∷ message_of 13 3 ∷ [];
  conversations = [];
  users = [];
  has_more = true;
}

abbrev pub page_5 : SyncResponse
page_5 = record {
  log_seq = 5;
  messages = message_of 14 4 ∷ message_of 15 5 ∷ [];
  conversations = [];
  users = [];
  has_more = false;
}

abbrev pub pages : ℕ → Option SyncResponse
pages after = if ltb after 3 then some page_3 else some page_5

abbrev pub entry_4 : LogEntry
entry_4 = record { id = 14; conversation_id = 7; seq = 4; log_seq = 4 }

-- The first request has a live frame beside it, and the second a resync before it.
abbrev pub rounds : List Round
rounds =
    record {
      before = [];
      between = [];
      in_flight = message (message_of 15 5) ∷ [];
      serve = pages;
      landed = [];
    }
    ∷ record { before = resync ∷ []; between = []; in_flight = []; serve = pages; landed = [] }
    ∷ []

abbrev pub ready_0 : ServerReady
ready_0 = record { session_id = 9; heartbeat_interval_sec = 30; missed_pong_limit = 2; log_seq = 0 }

-- A server that refuses every refresh, and a generator that counts.
abbrev pub refuses : Server ℕ
refuses = record {
  mint = λ w. some (50 + w, 200 * second);
  post = λ w held t p. (unauthorized, suc w);
  others = λ w d. d;
  cancelled = λ w. false;
}
