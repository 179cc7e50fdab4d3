-- ===== src/Hub/Typing.antt =====
-- internal/hub/hub.go: Handle with its read and typing frames, the typing table, and detach. The answers
-- of the store (MarkRead, Members) are inputs; none is a read of the members that failed. A map is an
-- association list, and the order of a range over it is that of the list.
pub mod Who
use catenary.Prelude.{
  ℕ, ◌+◌, Bool, true, false, not, ◌&&◌, ◌||◌, Option, none, some, List, [], ◌∷◌, ◌++◌, ◌==◌, ltb,
  is_some, has, keep, exists, keys, lookup, insert, delete, if◌then◌else◌,
}
use catenary.Hub.Sessions.{
  Uuid, Session, Hub, ServerFrame, server_typing, server_receipt, find, enqueue_locked,
  remove_locked, request_close, close_policy,
}
use catenary.Hub.Fanout.{sessions_of}
use catenary.Store.Reads.{
  ReadReceipt, ReadAnswer, received, seq_out_of_range, not_a_member, read_failed,
}

-- One session's entry; its user is the connection's.
pub record Entry : Type 0 where
  pub session : ℕ
  pub user_id : Uuid
  pub at : ℕ

abbrev pub TypingTable : Type 0
TypingTable = List (Uuid × List Entry)

pub record TypingHub : Type 0 where
  pub hub : Hub
  pub typing : TypingTable

abbrev pub entries_of : Option (List Entry) → List Entry
entries_of none = []
entries_of (some es) = es

-- An entry's time, where the user has none or a later one.
abbrev pub keep_earlier : Entry → List (Uuid × ℕ) → Option ℕ → List (Uuid × ℕ)
keep_earlier e seen none = insert e.user_id e.at seen
keep_earlier e seen (some cur) = if ltb e.at cur then insert e.user_id e.at seen else seen

-- The earliest entry of each user.
unfoldable pub earliest : List Entry → List (Uuid × ℕ)
earliest [] = []
earliest (e ∷ es) = let seen = earliest es in keep_earlier e seen (lookup e.user_id seen)

-- By time, then by user.
abbrev pub is_before : Uuid × ℕ → Uuid × ℕ → Bool
is_before (u, a) (v, b) = ltb a b || (a == b && ltb u v)

unfoldable pub place_user : Uuid × ℕ → List (Uuid × ℕ) → List (Uuid × ℕ)
place_user x [] = x ∷ []
place_user x (y ∷ ys) = let rest = place_user x ys in if is_before y x then y ∷ rest else x ∷ y ∷ ys

unfoldable pub in_order : List (Uuid × ℕ) → List (Uuid × ℕ)
unfolding place_user
in_order [] = []
in_order (x ∷ xs) = place_user x (in_order xs)

unfoldable pub typing_list : List Entry → List Uuid
unfolding earliest in_order
typing_list es = keys (in_order (earliest es))

-- typingListLocked.
unfoldable pub typing_list_locked : Uuid → TypingTable → List Uuid
unfolding typing_list
typing_list_locked conv t = typing_list (entries_of (lookup conv t))

unfoldable pub is_entry : ℕ → List Entry → Bool
is_entry i es = exists (λ (e : Entry). e.session == i) es

unfoldable pub without_entry : ℕ → List Entry → List Entry
without_entry i es = keep (λ (e : Entry). not (e.session == i)) es

-- A conversation with no entry left has no row.
unfoldable pub store_entries : Uuid → List Entry → TypingTable → TypingTable
store_entries conv [] t = delete conv t
store_entries conv (e ∷ es) t = insert conv (e ∷ es) t

pub data TypingState : Type 0 where
  start stop : TypingState

-- Start keeps the time of an entry that is there; stop takes it away.
unfoldable pub turn : TypingState → ℕ → Uuid → ℕ → Uuid → TypingTable → TypingTable
unfolding is_entry without_entry store_entries
turn start i user now conv t =
    let es = entries_of (lookup conv t) in
    if is_entry i es
    then t
    else insert conv (record { session = i; user_id = user; at = now } ∷ es) t
turn stop i user now conv t = store_entries conv (without_entry i (entries_of (lookup conv t))) t

abbrev pub is_session : Option ℕ → ℕ → Bool
is_session none i = false
is_session (some j) i = i == j

-- The sessions of one user; `except` is the session that is left out.
unfoldable pub broadcast_to : List Session → ServerFrame → Option ℕ → Hub → Hub × ℕ
broadcast_to [] f except h = (h, 0)
broadcast_to (s ∷ ss) f except h =
    let sent = if is_session except s.id then (h, false) else enqueue_locked s.id f h in
    let rest = broadcast_to ss f except sent.0 in (rest.0, (if sent.1 then 1 else 0) + rest.1)

-- broadcastLocked.
unfoldable pub broadcast_locked : List Uuid → ServerFrame → Option ℕ → Hub → Hub × ℕ
unfolding broadcast_to
broadcast_locked [] f except h = (h, 0)
broadcast_locked (u ∷ us) f except h =
    let (h', n) = broadcast_to (sessions_of u h) f except h in
    let rest = broadcast_locked us f except h' in (rest.0, n + rest.1)

-- findLocked: the session of this number, if it is the user's.
unfoldable pub find_locked : ℕ → Uuid → Hub → Option Session
find_locked i user h = elim (find i h.sessions) [
  | none ↦ none
  | some s ↦ if s.user_id == user then some s else none
]

unfoldable pub type_as : Option Session → TypingState → ℕ → Uuid → List Uuid → TypingHub → TypingHub
unfolding turn typing_list_locked broadcast_locked
type_as none state now conv members h = h
type_as (some s) state now conv members h =
    let t = turn state s.id s.user_id now conv h.typing in
    record {
      hub =
          (broadcast_locked members (server_typing conv (typing_list_locked conv t)) (some s.id)
            h.hub).0;
      typing = t;
    }

-- typingFrame.
unfoldable pub typing_frame :
    ℕ → Uuid → Uuid → TypingState → ℕ → Option (List Uuid) → TypingHub → TypingHub
unfolding type_as find_locked
typing_frame i user conv state now none h = h
typing_frame i user conv state now (some members) h =
    if not (has user members)
    then h
    else type_as (find_locked i user h.hub) state now conv members h

-- read.
unfoldable pub read : ℕ → ReadAnswer → Option (List Uuid) → TypingHub → TypingHub
unfolding broadcast_locked
read i seq_out_of_range members h = record h { hub = request_close i close_policy h.hub }
read i not_a_member members h = h
read i read_failed members h = h
read i (received r) none h = h
read i (received r) (some members) h =
    if r.advanced
    then record h {
      hub =
          (broadcast_locked members (server_receipt r.conversation_id r.user_id r.up_to_seq) none
            h.hub).0;
    }
    else h

pub data ClientFrame : Type 0 where
  client_read : ReadAnswer → Option (List Uuid) → ClientFrame
  client_typing : Uuid → TypingState → ℕ → Option (List Uuid) → ClientFrame
  client_other : ClientFrame

-- Handle, for the session of this number and user.
unfoldable pub handle : ℕ → Uuid → ClientFrame → TypingHub → TypingHub
unfolding read typing_frame
handle i user (client_read r members) h = read i r members h
handle i user (client_typing conv state now members) h =
    typing_frame i user conv state now members h
handle i user client_other h = h

abbrev pub is_same_list : List Uuid → List Uuid → Bool
is_same_list [] [] = true
is_same_list (x ∷ xs) (y ∷ ys) = let rest = is_same_list xs ys in x == y && rest
is_same_list xs ys = false

abbrev pub with_row : Uuid → List Entry → TypingTable → TypingTable
with_row conv [] rest = rest
with_row conv (e ∷ es) rest = (conv, e ∷ es) ∷ rest

-- One conversation of dropTypingLocked: its entries without the session.
abbrev pub drop_one : ℕ → Uuid → List Entry → TypingTable → TypingTable
drop_one i conv es rest = with_row conv (without_entry i es) rest

-- dropTypingLocked: the table without the session's entries.
unfoldable pub drop_typing : ℕ → TypingTable → TypingTable
unfolding is_entry without_entry
drop_typing i [] = []
drop_typing i ((conv, es) ∷ t) =
    let rest = drop_typing i t in
    if is_entry i es then drop_one i conv es rest else (conv, es) ∷ rest

-- The conversations whose list it changed.
unfoldable pub changed_by : ℕ → TypingTable → List Uuid
unfolding is_entry without_entry typing_list
changed_by i [] = []
changed_by i ((conv, es) ∷ t) =
    let rest = changed_by i t in
    if is_entry i es && not (is_same_list (typing_list es) (typing_list (without_entry i es)))
    then conv ∷ rest
    else rest

-- emitTyping.
unfoldable pub emit_typing : Uuid → Option ℕ → Option (List Uuid) → TypingHub → TypingHub
unfolding broadcast_locked typing_list_locked
emit_typing conv except none h = h
emit_typing conv except (some members) h = record h {
  hub =
      (broadcast_locked members (server_typing conv (typing_list_locked conv h.typing)) except
        h.hub).0;
}

abbrev pub emit_all : (Uuid → Option (List Uuid)) → List Uuid → TypingHub → TypingHub
emit_all members [] h = h
emit_all members (c ∷ cs) h = emit_all members cs (emit_typing c none (members c) h)

-- detach.
unfoldable pub detach : ℕ → (Uuid → Option (List Uuid)) → TypingHub → TypingHub
unfolding drop_typing changed_by emit_typing
detach i members h =
    emit_all members (changed_by i h.typing)
      (record { hub = (remove_locked i h.hub).0; typing = drop_typing i h.typing })
