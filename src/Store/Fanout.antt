-- ===== src/Store/Fanout.antt =====
-- internal/store/fanout.go: what the hub reads for a frame, with conversationRowsForMembers and
-- memberUsers of internal/store/sync.go. A transaction reads one state of the tables; a statement that
-- fails is not modelled. The columns of an edit are left out, as in Store/Log.antt.
pub mod Named
use catenary.Prelude.{
  ℕ, suc, Bool, true, false, not, ◌&&◌, ◌||◌, Option, none, some, List, [], ◌∷◌, ◌==◌, ltb, leb,
  is_some, has, keep, length, sort_by, first, if◌then◌else◌, map, lookup,
}
use catenary.Store.Tables.{Uuid, Db, DeviceRow, UserRow, user_of}
use catenary.Store.Log.{
  MessageRow, ConversationRow, MemberRow, PersonRow, AttachmentRow, LogDb, conversation_of,
  member_of,
}
use catenary.Store.Sync.{
  ConversationView, load_attachments, load_reply_sources, read_by, view, conversation_ids,
}

pub record MemberRead : Type 0 where
  pub user_id : Uuid
  pub read_seq : ℕ

-- One message and what its views are built from, with the introduction of its conversation.
pub record FanoutRead : Type 0 where
  pub message : MessageRow
  pub attachments : List (Uuid × AttachmentRow)
  pub reply_source : Option MessageRow
  pub read_by : ℕ
  pub members : List MemberRead
  pub conversations : List (Uuid × ConversationView)
  pub users : List PersonRow

abbrev pub first_message : ℕ
first_message = 1

-- WHERE conversation_id = $1 AND seq = $2.
unfoldable pub by_seq : Uuid → ℕ → List MessageRow → Option MessageRow
by_seq c n [] = none
by_seq c n (m ∷ ms) = if m.conversation_id == c && m.seq == n then some m else by_seq c n ms

-- The rows of a conversation's members, in the order of their users.
unfoldable pub rows_of : Uuid → LogDb → List MemberRow
rows_of c db =
    sort_by (λ (m : MemberRow). m.user_id)
      (keep (λ (m : MemberRow). m.conversation_id == c) db.members)

abbrev pub as_member : MemberRow → MemberRead
as_member m = record { user_id = m.user_id; read_seq = m.read_seq }

-- The members that the fan-out of a message reads.
unfoldable pub member_reads : Uuid → LogDb → List MemberRead
unfolding rows_of
member_reads c db = map as_member (rows_of c db)

-- Members.
unfoldable pub read_members : Uuid → LogDb → List Uuid
unfolding rows_of
read_members c db = map (λ (m : MemberRow). m.user_id) (rows_of c db)

-- Head.
abbrev pub read_head : LogDb → ℕ
read_head db = db.log_counter

abbrev pub source_of : Uuid → List MessageRow → Option MessageRow
source_of i [] = none
source_of i (m ∷ ms) = if m.id == i then some m else source_of i ms

-- The source that the message names, among those that were loaded for it.
unfoldable pub reply_source_of : LogDb → List MessageRow → MessageRow → Option MessageRow
reply_source_of db page m = elim m.reply_to [
  | none ↦ none
  | some i ↦ source_of i (load_reply_sources db page)
]

-- The attachments of one message among those of a page.
unfoldable pub attachments_of : LogDb → List MessageRow → MessageRow → List (Uuid × AttachmentRow)
attachments_of db page m =
    keep (λ (r : Uuid × AttachmentRow). r.0 == m.id) (load_attachments db page)

-- conversationRowsForMembers: the conversation as each member sees it.
unfoldable pub conversation_rows_for_members : Uuid → LogDb → List (Uuid × ConversationView)
unfolding rows_of
conversation_rows_for_members c db = elim (conversation_of c db.conversations) [
  | none ↦ []
  | some row ↦ map (λ (cm : MemberRow). (cm.user_id, view db cm row)) (rows_of c db)
]

-- memberUsers.
unfoldable pub member_users : Uuid → LogDb → List PersonRow
member_users c db =
    sort_by (λ (p : PersonRow). p.id)
      (keep (λ (p : PersonRow). is_some (member_of c p.id db.members)) db.people)

unfoldable pub fanout_of : LogDb → MessageRow → FanoutRead
unfolding member_reads reply_source_of attachments_of conversation_rows_for_members member_users
fanout_of db m =
    let c = m.conversation_id in
    let is_first = m.seq == first_message in
    record {
      message = m;
      attachments = attachments_of db (m ∷ []) m;
      reply_source = reply_source_of db (m ∷ []) m;
      read_by = read_by db m;
      members = member_reads c db;
      conversations = if is_first then conversation_rows_for_members c db else [];
      users = if is_first then member_users c db else [];
    }

-- MessageForFanout; none is ErrNotFound.
unfoldable pub message_for_fanout : Uuid → ℕ → LogDb → Option FanoutRead
unfolding by_seq fanout_of
message_for_fanout c n db = elim (by_seq c n db.messages) [
  | none ↦ none
  | some m ↦ some (fanout_of db m)
]

pub record ReadNotifyRead : Type 0 where
  pub message : MessageRow
  pub attachments : List (Uuid × AttachmentRow)
  pub reply_source : Option MessageRow
  pub read_by : ℕ

-- A message in the span of the receipt whose author is another member.
unfoldable pub is_in_span : Uuid → Uuid → ℕ → ℕ → LogDb → MessageRow → Bool
is_in_span c reader before after db m =
    m.conversation_id == c
    && ltb before m.seq
    && leb m.seq after
    && not (m.author_id == reader)
    && is_some (member_of c m.author_id db.members)

-- The author's rows from this one on, which is its row_number: ordinals of a conversation differ.
unfoldable pub row_number : MessageRow → List MessageRow → ℕ
row_number m span =
    length (keep (λ (n : MessageRow). n.author_id == m.author_id && leb m.seq n.seq) span)

-- The newest of each author, at most so many.
unfoldable pub ranked : ℕ → List MessageRow → List MessageRow
unfolding row_number
ranked cap span = keep (λ (m : MessageRow). leb (row_number m span) cap) span

-- Those with a smaller ordinal behind: ORDER BY seq DESC.
unfoldable pub insert_newest : MessageRow → List MessageRow → List MessageRow
insert_newest m [] = m ∷ []
insert_newest m (n ∷ ns) =
    let rest = insert_newest m ns in if leb n.seq m.seq then m ∷ n ∷ ns else n ∷ rest

unfoldable pub newest_first : List MessageRow → List MessageRow
unfolding insert_newest
newest_first [] = []
newest_first (m ∷ ms) = insert_newest m (newest_first ms)

unfoldable pub notify_rows : LogDb → List MessageRow → MessageRow → ReadNotifyRead
unfolding reply_source_of attachments_of
notify_rows db page m = record {
  message = m;
  attachments = attachments_of db page m;
  reply_source = reply_source_of db page m;
  read_by = read_by db m;
}

-- MessagesForReadNotify: by author, and the newest first. The sort by author keeps the order within one.
unfoldable pub messages_for_read_notify : Uuid → Uuid → ℕ → ℕ → ℕ → LogDb → List ReadNotifyRead
unfolding is_in_span ranked newest_first notify_rows
messages_for_read_notify c reader before after cap db =
    let span = keep (is_in_span c reader before after db) db.messages in
    let page = sort_by (λ (m : MessageRow). m.author_id) (newest_first (ranked cap span)) in
    map (notify_rows db page) page

-- A device that does not authenticate: it is revoked, or its account is deactivated.
unfoldable pub is_dead : List UserRow → DeviceRow → Bool
is_dead users d = elim (user_of d.user_id users) [
  | none ↦ false
  | some u ↦ is_some d.revoked_at || is_some u.deactivated_at
]

-- DeadDevices.
unfoldable pub read_dead_devices : List Uuid → Db → List Uuid
unfolding is_dead
read_dead_devices asked db =
    map (λ (d : DeviceRow). d.id)
      (sort_by (λ (d : DeviceRow). d.id)
        (keep (λ (d : DeviceRow). has d.id asked && is_dead db.users d) db.devices))
