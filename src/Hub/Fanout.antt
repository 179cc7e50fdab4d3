-- ===== src/Hub/Fanout.antt =====
-- internal/hub/hub.go: OnNotify, onReadNotify and the gap. What the store answers, with its retries, is
-- an input; the frames are built by internal/wireview, here by what goes into them. A handler
-- runs under the hub's lock; the writers' turns fall between handlers (Hub/Steps.antt), where the source
-- lets one fall inside too, which only makes room.
pub mod Members
pub mod Budget
use catenary.Prelude.{
  ℕ, ◌+◌, Bool, true, false, not, Option, none, some, List, [], ◌∷◌, ◌++◌, ◌==◌, leb, keep, map,
  lookup, insert, if◌then◌else◌,
}
use catenary.Hub.Sessions.{
  Uuid, Session, Hub, ServerFrame, server_message, server_conversation, server_user, server_resync,
  push_all, request_close, close_all, close_restart,
}

abbrev pub first_message_seq : ℕ
first_message_seq = 1

abbrev pub read_notify_cap : ℕ
read_notify_cap = 64

pub record Member : Type 0 where
  pub user_id : Uuid
  pub read_seq : ℕ

pub record FanoutMessage : Type 0 where
  pub conversation : Uuid
  pub seq : ℕ
  pub members : List Member
  pub conversations : List (ℕ × ℕ)
  pub users : List ℕ
  pub read_by : ℕ

pub data Loaded : Type 0 where
  load_cancelled load_not_found load_failed : Loaded
  loaded : FanoutMessage → Loaded

pub data HeadRead : Type 0 where
  head_cancelled head_failed : HeadRead
  head_is : ℕ → HeadRead

abbrev pub to_sessions : List Session → List ServerFrame → Hub → Hub
to_sessions [] fs h = h
to_sessions (s ∷ ss) fs h = to_sessions ss fs (push_all s.id fs h)

-- h.sessions[user].
abbrev pub sessions_of : Uuid → Hub → List Session
sessions_of u h = keep (λ s. s.user_id == u) h.sessions

intro_of : FanoutMessage → Option ℕ → List ServerFrame
intro_of fm none = []
intro_of fm (some row) = server_conversation row ∷ map server_user fm.users

-- What a member's sessions are sent.
unfoldable pub frames_for : FanoutMessage → Member → List ServerFrame
unfolding intro_of
frames_for fm m =
    (if fm.seq == first_message_seq then intro_of fm (lookup m.user_id fm.conversations) else [])
    ++ server_message fm.conversation fm.seq m.user_id m.read_seq fm.read_by ∷ []

unfoldable pub fan_out : FanoutMessage → List Member → Hub → Hub
fan_out fm [] h = h
fan_out fm (m ∷ ms) h = fan_out fm ms (to_sessions (sessions_of m.user_id h) (frames_for fm m) h)

unfoldable pub gap : HeadRead → Hub → Hub
gap head_cancelled h = h
gap head_failed h = close_all close_restart h.sessions h
gap (head_is n) h = to_sessions h.sessions (server_resync n ∷ []) h

-- OnNotify of a message.
unfoldable pub on_notify : Loaded → HeadRead → Hub → Hub
on_notify load_cancelled head h = h
on_notify load_not_found head h = h
on_notify load_failed head h = gap head h
on_notify (loaded fm) head h = fan_out fm fm.members h

-- readBurst, and budgetLocked: a new batch starts with nothing spent.
pub record ReadBurst : Type 0 where
  pub batch : Option Uuid
  pub spent : List (ℕ × ℕ)

abbrev pub holds : Option Uuid → Uuid → Bool
holds none b = false
holds (some a) b = a == b

unfoldable pub budget_locked : Uuid → ReadBurst → ReadBurst
budget_locked b burst = if holds burst.batch b then burst else record { batch = some b; spent = [] }

abbrev pub spent_of : Uuid → ReadBurst → ℕ
spent_of u burst = elim (lookup u burst.spent) [ none ↦ 0 | some n ↦ n ]

pub record ReadMessage : Type 0 where
  pub conversation : Uuid
  pub seq : ℕ
  pub author_id : Uuid
  pub read_by : ℕ

abbrev pub read_frame : ReadMessage → ServerFrame
read_frame m = server_message m.conversation m.seq m.author_id 0 m.read_by

unfoldable pub emit : ReadMessage → Hub → Hub
emit m h = to_sessions (sessions_of m.author_id h) (read_frame m ∷ []) h

abbrev pub is_empty : List Session → Bool
is_empty [] = true
is_empty (s ∷ ss) = false

-- One message of a batched re-emission: skipped, shed, or sent.
unfoldable pub read_one : ReadMessage → ReadBurst × Hub → ReadBurst × Hub
unfolding emit
read_one m (burst, h) =
    if is_empty (sessions_of m.author_id h)
    then (burst, h)
    else if leb read_notify_cap (spent_of m.author_id burst)
    then (burst, h)
    else (
      record burst { spent = insert m.author_id (spent_of m.author_id burst + 1) burst.spent },
      emit m h,
    )

unfoldable pub read_batched : List ReadMessage → ReadBurst × Hub → ReadBurst × Hub
unfolding read_one
read_batched [] x = x
read_batched (m ∷ ms) x = read_batched ms (read_one m x)

unfoldable pub read_unbatched : List ReadMessage → Hub → Hub
unfolding emit
read_unbatched [] h = h
read_unbatched (m ∷ ms) h = read_unbatched ms (emit m h)

-- onReadNotify, with the batch of the payload and the messages read, none for a read that failed.
unfoldable pub on_read_notify :
    Option Uuid → Option (List ReadMessage) → ReadBurst × Hub → ReadBurst × Hub
unfolding read_batched read_unbatched
on_read_notify b none x = x
on_read_notify none (some ms) (burst, h) = (burst, read_unbatched ms h)
on_read_notify (some b) (some ms) (burst, h) = read_batched ms (budget_locked b burst, h)
