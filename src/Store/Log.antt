-- ===== src/Store/Log.antt =====
-- The tables that a send, a sync and a read receipt share (migrations/0002_conversations.up.sql,
-- 0003_messages.up.sql and those that add columns to them), one record per row, and the statements on
-- them: internal/store/messages.go, sync.go, readstate.go. NULL is `none`; a text is the list of its bytes.
use catenary.Prelude.{
  ℕ, suc, Bool, true, false, Option, none, some, List, [], ◌∷◌, ◌==◌, ◌&&◌, if◌then◌else◌,
}
use catenary.Store.Tables.{Uuid, Time}

abbrev pub Text : Type 0
Text = List ℕ

pub data Kind : Type 0 where
  voice image link : Kind

unfoldable pub is_same_kind : Kind → Kind → Bool
is_same_kind voice voice = true
is_same_kind image image = true
is_same_kind link link = true
is_same_kind a b = false

pub record MessageRow : Type 0 where
  pub id : Uuid
  pub conversation_id : Uuid
  pub author_id : Uuid
  pub seq : ℕ
  pub log_seq : ℕ
  pub at : Time
  pub text : Option Text
  pub client_id : Option Uuid
  pub sender_device_id : Option Uuid
  pub reply_to : Option Uuid

pub data ConversationKind : Type 0 where
  direct group self_notes : ConversationKind

-- `direct_key` and `create_key` are the ids that their strings are joined from.
pub record ConversationRow : Type 0 where
  pub id : Uuid
  pub kind : ConversationKind
  pub name : Option Text
  pub direct_key : Option (List Uuid)
  pub create_key : Option (List Uuid)
  pub last_seq : ℕ
  pub metadata_log_seq : ℕ

pub record MemberRow : Type 0 where
  pub conversation_id : Uuid
  pub user_id : Uuid
  pub read_seq : ℕ
  pub metadata_log_seq : ℕ

-- A row of users, with the columns that /sync serves.
pub record PersonRow : Type 0 where
  pub id : Uuid
  pub handle : Uuid
  pub is_bot : Bool
  pub display_name : Text
  pub is_deactivated : Bool
  pub metadata_log_seq : ℕ

-- A row of uploads; the columns that only one kind has are `none` for the others.
pub record UploadRow : Type 0 where
  pub id : Uuid
  pub uploader : Uuid
  pub kind : Kind
  pub storage_key : Option Uuid
  pub bytes : ℕ
  pub width : Option ℕ
  pub height : Option ℕ
  pub filename : Option Text
  pub duration_ms : Option ℕ
  pub peaks : Option (List ℕ)
  pub link_url : Option Text
  pub consumed_at : Option Time

pub record AttachmentRow : Type 0 where
  pub kind : Kind
  pub position : ℕ
  pub storage_key : Option Uuid
  pub bytes : Option ℕ
  pub width : Option ℕ
  pub height : Option ℕ
  pub filename : Option Text
  pub duration_ms : Option ℕ
  pub peaks : Option (List ℕ)
  pub is_pending : Bool  -- transcript_state is "pending"
  pub link_url : Option Text

-- A payload on NotifyChannel: that of a message, of a receipt, or of a read span in a batch.
pub data NotifyPayload : Type 0 where
  new_message : Uuid → ℕ → NotifyPayload
  new_receipt : Uuid → Uuid → ℕ → ℕ → NotifyPayload
  new_span : Uuid → Uuid → ℕ → Uuid → NotifyPayload

-- `messages` in the order of their inserts.
pub record LogDb : Type 0 where
  pub messages : List MessageRow
  pub conversations : List ConversationRow
  pub members : List MemberRow
  pub people : List PersonRow
  pub uploads : List UploadRow
  pub attachments : List (Uuid × AttachmentRow)
  pub log_counter : ℕ
  pub notified : List NotifyPayload

unfoldable pub conversation_of : Uuid → List ConversationRow → Option ConversationRow
conversation_of i [] = none
conversation_of i (c ∷ cs) = if c.id == i then some c else conversation_of i cs

-- The last ordinal that a conversation gave out; 0 if there is no such conversation.
unfoldable pub last_seq_of : Uuid → List ConversationRow → ℕ
last_seq_of i [] = 0
last_seq_of i (c ∷ cs) = if c.id == i then c.last_seq else last_seq_of i cs

-- The row of a member: conversation first, then user.
unfoldable pub member_of : Uuid → Uuid → List MemberRow → Option MemberRow
member_of c u [] = none
member_of c u (m ∷ ms) =
    if m.conversation_id == c && m.user_id == u then some m else member_of c u ms

-- Whether a row has this author and this key.
unfoldable pub has_key : Uuid → Uuid → MessageRow → Bool
has_key author client row = elim row.client_id [
  | none ↦ false
  | some k ↦ row.author_id == author && k == client
]

-- WHERE author_id = $1 AND client_id = $2.
unfoldable pub by_key : Uuid → Uuid → List MessageRow → Option MessageRow
unfolding has_key
by_key author client [] = none
by_key author client (row ∷ rows) =
    if has_key author client row then some row else by_key author client rows

-- UPDATE conversations SET last_seq = last_seq + 1 WHERE id = $1.
unfoldable pub draw_seq : Uuid → List ConversationRow → List ConversationRow
draw_seq i [] = []
draw_seq i (c ∷ cs) =
    (if c.id == i then record c { last_seq = suc c.last_seq } else c) ∷ draw_seq i cs

-- replyToResolveQuery: the source, if it is a message of this conversation.
unfoldable pub source_in : Uuid → Uuid → List MessageRow → Bool
source_in i conversation [] = false
source_in i conversation (row ∷ rows) =
    let rest = source_in i conversation rows in
    if row.id == i && row.conversation_id == conversation then true else rest
