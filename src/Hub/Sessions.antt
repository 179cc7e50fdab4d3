-- ===== src/Hub/Sessions.antt =====
-- internal/hub/hub.go: the table of sessions, their outboxes, and Shutdown. The table of tables of the
-- source is one list; a session's identity is its number. A session that is off the table has a closed
-- outbox: removeLocked is the only place that does either. Close requests are recorded in order.
pub mod Counted
use catenary.Prelude.{
  ℕ, ◌+◌, ◌-◌, Bool, true, false, ◌&&◌, not, Option, none, some, List, [], ◌∷◌, ◌++◌, ◌==◌, ltb,
  length, is_some, map, keep, if◌then◌else◌,
}

abbrev pub Uuid : Type 0
Uuid = ℕ

abbrev pub outbox_bound : ℕ
outbox_bound = 256

-- A frame, by what it is built from.
pub data ServerFrame : Type 0 where
  server_message : (conversation seq viewer read_seq read_by : ℕ) → ServerFrame
  server_conversation server_user : ℕ → ServerFrame
  server_resync : (head : ℕ) → ServerFrame
  server_typing : (conversation : Uuid) → List Uuid → ServerFrame
  server_receipt : (conversation user_id : Uuid) → (up_to_seq : ℕ) → ServerFrame

pub data Close : Type 0 where
  close_now close_revoked close_restart close_going_away close_policy : Close

pub record Session : Type 0 where
  pub id : ℕ
  pub user_id : Uuid
  pub device_id : Uuid
  pub out : List ServerFrame
  pub sent : List ServerFrame  -- what the writer has handed to the connection
  pub dead : Bool

pub record Hub : Type 0 where
  pub sessions : List Session
  pub removed : List Session
  pub count : ℕ
  pub closing : Bool
  pub drained : ℕ  -- how often the channel was closed: a second time panics
  pub closes : List (ℕ × Close)

unfoldable pub find : ℕ → List Session → Option Session
find i [] = none
find i (s ∷ ss) = if s.id == i then some s else find i ss

-- The first session with this number taken off the list.
unfoldable pub without : ℕ → List Session → List Session
without i [] = []
without i (s ∷ ss) = if s.id == i then ss else s ∷ without i ss

unfoldable pub put : ℕ → Session → List Session → List Session
put i x [] = []
put i x (s ∷ ss) = if s.id == i then x ∷ ss else s ∷ put i x ss

unfoldable pub request_close : ℕ → Close → Hub → Hub
request_close i how h = record h { closes = h.closes ++ (i, how) ∷ [] }

unfoldable pub take_off : ℕ → Option Session → Hub → Hub × Bool
take_off i none h = (h, false)
take_off i (some s) h =
    let n = h.count - 1 in
    (
      record h {
        sessions = without i h.sessions;
        removed = h.removed ++ s ∷ [];
        count = n;
        drained = if h.closing && n == 0 then h.drained + 1 else h.drained;
      },
      true,
    )

unfoldable pub remove_locked : ℕ → Hub → Hub × Bool
unfolding take_off
remove_locked i h = take_off i (find i h.sessions) h

unfoldable pub enqueue_on : ℕ → ServerFrame → Option Session → Hub → Hub × Bool
unfolding remove_locked
enqueue_on i f none h = (h, false)
enqueue_on i f (some s) h =
    if ltb (length s.out) outbox_bound
    then (record h { sessions = put i (record s { out = s.out ++ f ∷ [] }) h.sessions }, true)
    else (request_close i close_now (remove_locked i h).0, false)

unfoldable pub enqueue_locked : ℕ → ServerFrame → Hub → Hub × Bool
unfolding enqueue_on
enqueue_locked i f h = enqueue_on i f (find i h.sessions) h

-- Attach, up to the liveness re-check; the number is new.
unfoldable pub attach : (id user_id device_id : ℕ) → Hub → Hub
attach i u d h = if h.closing then request_close i close_going_away h else record h {
  sessions =
      record { id = i; user_id = u; device_id = d; out = []; sent = []; dead = false } ∷ h.sessions;
  count = h.count + 1;
}

-- severIfDead, given the store's answer: none for a read that failed.
unfoldable pub sever_answer : ℕ → Option (List Uuid) → Hub → Hub
unfolding remove_locked
sever_answer i none h = h
sever_answer i (some []) h = h
sever_answer i (some (d ∷ ds)) h =
    let (h', removed) = remove_locked i h in
    if removed then request_close i close_revoked h' else h'

unfoldable pub sever_if_dead : ℕ → Option (List Uuid) → Hub → Hub
unfolding sever_answer
sever_if_dead i answer h = sever_answer i answer h

-- One turn of the writer's loop (session.run); `ok` is the connection's answer.
unfoldable pub write_one : Bool → Session → Session
write_one ok s = elim s.out [
  | [] ↦ s
  | f ∷ fs ↦
      if s.dead
      then record s { out = fs }
      else if ok
      then record s { out = fs; sent = s.sent ++ f ∷ [] }
      else record s { out = fs; dead = true }
]

unfoldable pub on_session : (Session → Session) → ℕ → Option Session → List Session → List Session
on_session f i none ss = ss
on_session f i (some s) ss = put i (f s) ss

unfoldable pub run_turn : Bool → ℕ → Hub → Hub
unfolding on_session
run_turn ok i h = record h { sessions = on_session (write_one ok) i (find i h.sessions) h.sessions }

unfoldable pub close_all : Close → List Session → Hub → Hub
close_all how [] h = h
close_all how (s ∷ ss) h = close_all how ss (request_close s.id how h)

unfoldable pub remove_all : List Session → Hub → Hub
unfolding remove_locked
remove_all [] h = h
remove_all (s ∷ ss) h = remove_all ss (remove_locked s.id h).0

-- Shutdown, up to the wait: the guarded close of the channel, then the closes.
unfoldable pub shutdown : Hub → Hub
unfolding close_all
shutdown h = close_all close_going_away h.sessions (record h {
  closing = true;
  drained =
      if h.count == 0 then (if h.drained == 0 then h.drained + 1 else h.drained) else h.drained;
})

-- The frames of a list to one session, in order.
abbrev pub push_all : ℕ → List ServerFrame → Hub → Hub
push_all i [] h = h
push_all i (f ∷ fs) h = push_all i fs (enqueue_locked i f h).0
