-- ===== src/Store/Rooms.antt =====
-- internal/store/metadata.go: FindOrCreateDirect, CreateGroup and FindOrCreateSelf. Each transaction is
-- one step; a statement that fails is a flag. A group's name comes trimmed.
use catenary.Prelude.{
  ℕ, Bool, true, false, not, ◌&&◌, ◌||◌, Option, none, some, List, [], ◌∷◌, ◌++◌, ◌==◌, ltb,
  is_some, length, has, sort_by, keep, if◌then◌else◌, map,
}
use catenary.Store.Tables.{Uuid}
use catenary.Store.Log.{
  Text, ConversationRow, ConversationKind, direct, group, self_notes, MemberRow, PersonRow, LogDb,
  conversation_of, member_of,
}
use catenary.Store.Marks.{MetadataBump, new_metadata_bump, apply_bump, person_of}
use catenary.Store.Sync.{ConversationView, view}

pub data RoomError : Type 0 where
  target_not_found target_deactivated self_direct invalid_group bot_cannot_create not_a_member :
      RoomError
  room_failed : RoomError

-- The conversation, and whether this call made it.
pub data RoomAnswer : Type 0 where
  room : ConversationView → Bool → RoomAnswer
  no_room : RoomError → RoomAnswer

abbrev pub max_group_name_runes : ℕ
max_group_name_runes = 80

abbrev pub max_group_members : ℕ
max_group_members = 49

abbrev pub is_same_key : List Uuid → List Uuid → Bool
is_same_key [] [] = true
is_same_key (x ∷ xs) (y ∷ ys) = let rest = is_same_key xs ys in x == y && rest
is_same_key xs ys = false

abbrev pub holds_key : Option (List Uuid) → List Uuid → Bool
holds_key none k = false
holds_key (some j) k = is_same_key j k

-- WHERE direct_key = $1; the column is unique.
unfoldable pub by_direct_key : List Uuid → List ConversationRow → Option ConversationRow
by_direct_key k [] = none
by_direct_key k (c ∷ cs) = if holds_key c.direct_key k then some c else by_direct_key k cs

-- WHERE create_key = $1; unique too.
unfoldable pub by_create_key : List Uuid → List ConversationRow → Option ConversationRow
by_create_key k [] = none
by_create_key k (c ∷ cs) = if holds_key c.create_key k then some c else by_create_key k cs

unfoldable pub by_handle : Uuid → List PersonRow → Option PersonRow
by_handle h [] = none
by_handle h (p ∷ ps) = if p.handle == h then some p else by_handle h ps

-- directKey: the smaller id first.
abbrev pub direct_key_of : Uuid → Uuid → List Uuid
direct_key_of a b = if ltb b a then b ∷ a ∷ [] else a ∷ b ∷ []

abbrev pub new_member : Uuid → Uuid → MemberRow
new_member c u = record { conversation_id = c; user_id = u; read_seq = 0; metadata_log_seq = 0 }

-- The two inserts: the conversation, with no message, and its members.
unfoldable pub add_room : ConversationRow → List Uuid → LogDb → LogDb
add_room c us db = record db {
  conversations = db.conversations ++ c ∷ [];
  members = db.members ++ map (new_member c.id) us;
}

-- conversationRowOne.
unfoldable pub conversation_row_one :
    LogDb → Option ConversationRow → Option MemberRow → Option ConversationView
conversation_row_one db (some c) (some m) = some (view db m c)
conversation_row_one db c m = none

unfoldable pub read_room : LogDb → Uuid → Uuid → Option ConversationView
unfolding conversation_row_one
read_room db i viewer =
    conversation_row_one db (conversation_of i db.conversations) (member_of i viewer db.members)

-- A room that is there: its row, as the viewer sees it.
abbrev pub found_room : Option ConversationView → LogDb → RoomAnswer × LogDb
found_room none db = (no_room not_a_member, db)
found_room (some v) db = (room v false, db)

-- A new room commits with its marks; what it answers was read before them.
abbrev pub commit_room : Option ConversationView → Option LogDb → LogDb → RoomAnswer × LogDb
commit_room none marked db = (no_room not_a_member, db)
commit_room (some v) none db = (no_room room_failed, db)
commit_room (some v) (some db') db = (room v true, db')

abbrev pub marks_of : Uuid → List Uuid → MetadataBump
marks_of i us = record new_metadata_bump { conversations = i ∷ []; members = map (λ u. (i, u)) us }

unfoldable pub create_room : ConversationRow → Uuid → List Uuid → LogDb → RoomAnswer × LogDb
unfolding add_room read_room
create_room c viewer us db =
    let db' = add_room c us db in
    commit_room (read_room db' c.id viewer) (apply_bump (marks_of c.id us) db') db

abbrev pub by_kind : ConversationKind → Option ConversationRow → Option ConversationRow
by_kind k none = none
by_kind k (some c) = elim k [
  | direct ↦ elim c.kind [ direct ↦ some c | _ ↦ none ]
  | group ↦ elim c.kind [ group ↦ some c | _ ↦ none ]
  | self_notes ↦ elim c.kind [ self_notes ↦ some c | _ ↦ none ]
]

abbrev pub existing_room : Uuid → Option ConversationRow → LogDb → RoomAnswer × LogDb
existing_room viewer none db = (no_room room_failed, db)
existing_room viewer (some c) db = found_room (read_room db c.id viewer) db

-- INSERT … ON CONFLICT DO NOTHING, and what follows, for a room that is one for its key.
unfoldable pub find_or_create :
    ConversationRow → List Uuid → Uuid → List Uuid → Bool → LogDb → RoomAnswer × LogDb
unfolding create_room by_direct_key
find_or_create c key viewer us fails db =
    if fails
    then (no_room room_failed, db)
    else if is_some (conversation_of c.id db.conversations)
        || is_some (by_direct_key key db.conversations)
    then existing_room viewer (by_kind c.kind (by_direct_key key db.conversations)) db
    else create_room c viewer us db

abbrev pub new_room :
    Uuid
    → ConversationKind
    → Option Text
    → Option (List Uuid)
    → Option (List Uuid)
    → ConversationRow
new_room i kind name direct_key create_key = record {
  id = i;
  kind = kind;
  name = name;
  direct_key = direct_key;
  create_key = create_key;
  last_seq = 0;
  metadata_log_seq = 0;
}

abbrev pub direct_with : Uuid → Uuid → Bool → Option PersonRow → LogDb → RoomAnswer × LogDb
direct_with viewer i fails none db = (no_room target_not_found, db)
direct_with viewer i fails (some p) db =
    if p.is_deactivated
    then (no_room target_deactivated, db)
    else if p.id == viewer
    then (no_room self_direct, db)
    else find_or_create (new_room i direct none (some (direct_key_of viewer p.id)) none)
        (direct_key_of viewer p.id) viewer (viewer ∷ p.id ∷ []) fails db

-- FindOrCreateDirect; `i` is the id that was drawn.
unfoldable pub find_or_create_direct : Uuid → Uuid → Uuid → Bool → LogDb → RoomAnswer × LogDb
unfolding find_or_create by_handle
find_or_create_direct viewer handle i fails db =
    direct_with viewer i fails (by_handle handle db.people) db

-- "Notes".
abbrev pub self_conversation_name : Text
self_conversation_name = 78 ∷ 111 ∷ 116 ∷ 101 ∷ 115 ∷ []

abbrev pub self_of : Uuid → Uuid → Bool → Option PersonRow → LogDb → RoomAnswer × LogDb
self_of viewer i fails none db = (no_room room_failed, db)
self_of viewer i fails (some p) db =
    if p.is_bot
    then (no_room bot_cannot_create, db)
    else find_or_create
        (new_room i self_notes (some self_conversation_name) (some (viewer ∷ [])) none)
        (viewer ∷ []) viewer (viewer ∷ []) fails db

-- FindOrCreateSelf.
unfoldable pub find_or_create_self : Uuid → Uuid → Bool → LogDb → RoomAnswer × LogDb
unfolding find_or_create
find_or_create_self viewer i fails db = self_of viewer i fails (person_of viewer db.people) db

-- The handles of a request: none is empty (0), none is named twice.
unfoldable pub are_handles : List Uuid → Bool
are_handles [] = true
are_handles (h ∷ hs) = not (h == 0) && not (has h hs) && are_handles hs

-- validateGroupRequest, on the trimmed name's runes.
unfoldable pub is_group_request : ℕ → List Uuid → Bool
unfolding are_handles
is_group_request runes handles =
    not (ltb runes 1 || ltb max_group_name_runes runes)
    && not (ltb (length handles) 1 || ltb max_group_members (length handles))
    && are_handles handles

-- The refusal that the named rows give: a deactivated one overrules the others, else the first stands.
unfoldable pub refusal_of : Uuid → Option RoomError → List PersonRow → Option RoomError
refusal_of creator e [] = e
refusal_of creator e (p ∷ ps) =
    refusal_of creator
      (if p.is_deactivated
        then some target_deactivated
        else if is_some e
        then e
        else if p.id == creator || p.is_bot
        then some invalid_group
        else none)
      ps

abbrev pub ids_of : List PersonRow → List Uuid
ids_of ps = map (λ (p : PersonRow). p.id) ps

pub record NewGroup : Type 0 where
  pub creator : Uuid
  pub name : Text  -- trimmed, a number for each rune
  pub handles : List Uuid
  pub request_id : Option Uuid

abbrev pub create_key_of : NewGroup → Option (List Uuid)
create_key_of g = elim g.request_id [ none ↦ none | some r ↦ some (g.creator ∷ r ∷ []) ]

-- The room that an earlier request of this key made.
abbrev pub replay_of : Option (List Uuid) → List ConversationRow → Option ConversationRow
replay_of none cs = none
replay_of (some k) cs = by_create_key k cs

-- The members after the creator, in the order of their ids.
unfoldable pub group_members : NewGroup → List PersonRow → List Uuid
group_members g named =
    g.creator
    ∷ ids_of (
        sort_by (λ (p : PersonRow). p.id)
          (keep (λ p. not p.is_deactivated && not (p.id == g.creator) && not p.is_bot) named))

unfoldable pub create_with : NewGroup → Uuid → Bool → List PersonRow → LogDb → RoomAnswer × LogDb
unfolding create_room group_members refusal_of
create_with g i fails named db =
    if ltb (length named) (length g.handles)
    then (no_room target_not_found, db)
    else elim (refusal_of g.creator none named) [
      | some e ↦ (no_room e, db)
      | none ↦
          if fails || is_some (conversation_of i db.conversations)
          then (no_room room_failed, db)
          else create_room (new_room i group (some g.name) none (create_key_of g)) g.creator
              (group_members g named) db
    ]

abbrev pub create_by : NewGroup → Uuid → Bool → Option PersonRow → LogDb → RoomAnswer × LogDb
create_by g i fails none db = (no_room room_failed, db)
create_by g i fails (some p) db =
    if p.is_bot
    then (no_room bot_cannot_create, db)
    else create_with g i fails (keep (λ (q : PersonRow). has q.handle g.handles) db.people) db

abbrev pub replay_group :
    NewGroup → Uuid → Bool → Option ConversationRow → LogDb → RoomAnswer × LogDb
replay_group g i fails (some c) db = found_room (read_room db c.id g.creator) db
replay_group g i fails none db =
    if not (is_group_request (length g.name) g.handles)
    then (no_room invalid_group, db)
    else create_by g i fails (person_of g.creator db.people) db

-- CreateGroup.
unfoldable pub create_group : NewGroup → Uuid → Bool → LogDb → RoomAnswer × LogDb
unfolding create_with is_group_request by_create_key
create_group g i fails db = replay_group g i fails (replay_of (create_key_of g) db.conversations) db
