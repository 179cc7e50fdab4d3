-- ===== src/Store/Sync.antt =====
-- internal/store/sync.go: Sync, one page of the log for one reader, and the derived numbers of
-- internal/store/readstate.go that it serves. The transaction reads one state of the tables. A page has
-- the columns that the tables of the model have: no kind, name, retention or muting of a conversation.
pub mod Page
pub mod Private
use catenary.Prelude.{
  ℕ, zero, suc, Bool, true, false, not, ◌&&◌, ◌||◌, Option, none, some, List, [], ◌∷◌, ◌++◌, ◌==◌,
  ltb, leb, is_some, length, keep, exists, has, sort_by, first, if◌then◌else◌, map,
}
use catenary.Prelude.Int.{ℤ, pos, negsuc}
use catenary.Store.Tables.{Uuid}
use catenary.Store.Log.{
  Text, MessageRow, ConversationRow, MemberRow, PersonRow, AttachmentRow, LogDb, conversation_of,
  member_of,
}

abbrev pub default_sync_limit : ℕ
default_sync_limit = 200

abbrev pub max_sync_limit : ℕ
max_sync_limit = 500

-- The two bounds on the caller's limit.
unfoldable pub clamp_limit : ℤ → ℕ
clamp_limit (negsuc n) = default_sync_limit
clamp_limit (pos n) =
    if n == 0 then default_sync_limit else if ltb max_sync_limit n then max_sync_limit else n

-- activeMemberExpr.
unfoldable pub is_active : Uuid → List PersonRow → Bool
is_active u [] = false
is_active u (p ∷ ps) = let rest = is_active u ps in if p.id == u then not p.is_deactivated else rest

-- readByExpr: the active members that read the message, the author among them.
unfoldable pub read_by : LogDb → MessageRow → ℕ
read_by db m = length (
    keep
      (λ (am : MemberRow).
        am.conversation_id == m.conversation_id
        && is_active am.user_id db.people
        && (am.user_id == m.author_id || leb m.seq am.read_seq))
      db.members)

-- memberCountExpr.
unfoldable pub member_count : LogDb → Uuid → ℕ
member_count db c = length (
    keep (λ (am : MemberRow). am.conversation_id == c && is_active am.user_id db.people) db.members)

unfoldable pub least : List MessageRow → Option ℕ
least [] = none
least (m ∷ ms) = elim (least ms) [
  | none ↦ some m.seq
  | some s ↦ some (if leb m.seq s then m.seq else s)
]

-- firstUnreadSeqExpr: another's first message above what the member read.
unfoldable pub first_unread_seq : LogDb → MemberRow → Option ℕ
unfolding least
first_unread_seq db cm = least (
    keep
      (λ (m : MessageRow).
        m.conversation_id == cm.conversation_id
        && ltb cm.read_seq m.seq
        && not (m.author_id == cm.user_id))
      db.messages)

pub record ConversationView : Type 0 where
  pub id : Uuid
  pub last_seq : ℕ
  pub member_count : ℕ
  pub read_seq : ℕ
  pub first_unread_seq : Option ℕ

pub record SyncPage : Type 0 where
  pub messages : List MessageRow
  pub attachments : List (Uuid × AttachmentRow)
  pub reply_sources : List MessageRow
  pub read_by : List (Uuid × ℕ)
  pub conversations : List ConversationView
  pub users : List PersonRow
  pub high_water : ℕ
  pub has_more : Bool

-- A position after the cursor, and at or below the bound.
abbrev pub between : ℕ → ℕ → ℕ → Bool
between after high n = ltb after n && leb n high

-- The join with the reader's memberships, and the two bounds.
unfoldable pub is_visible : Uuid → ℕ → ℕ → LogDb → MessageRow → Bool
is_visible viewer after head db m =
    is_some (member_of m.conversation_id viewer db.members) && between after head m.log_seq

-- The query of the messages, without its LIMIT.
unfoldable pub scan : Uuid → ℕ → LogDb → List MessageRow
unfolding is_visible
scan viewer after db =
    sort_by (λ (m : MessageRow). m.log_seq)
      (keep (is_visible viewer after db.log_counter db) db.messages)

-- The position of the last message.
unfoldable pub last_log_seq : List MessageRow → ℕ
last_log_seq [] = 0
last_log_seq (m ∷ []) = m.log_seq
last_log_seq (m ∷ n ∷ ms) = last_log_seq (n ∷ ms)

-- The messages of the page, its high water, and whether there are more.
unfoldable pub cut : ℕ → ℕ → List MessageRow → List MessageRow × ℕ × Bool
unfolding last_log_seq
cut limit head rows =
    let got = first (suc limit) rows in
    if ltb limit (length got)
    then (first limit got, last_log_seq (first limit got), true)
    else (got, head, false)

abbrev pub message_ids : List MessageRow → List Uuid
message_ids ms = map (λ (m : MessageRow). m.id) ms

abbrev pub conversation_ids : List MessageRow → List Uuid
conversation_ids ms = map (λ (m : MessageRow). m.conversation_id) ms

-- loadAttachments, in the order of their positions.
unfoldable pub load_attachments : LogDb → List MessageRow → List (Uuid × AttachmentRow)
load_attachments db ms =
    sort_by (λ (r : Uuid × AttachmentRow). r.1.position)
      (keep (λ (r : Uuid × AttachmentRow). has r.0 (message_ids ms)) db.attachments)

unfoldable pub reply_ids : List MessageRow → List Uuid
reply_ids [] = []
reply_ids (m ∷ ms) = let rest = reply_ids ms in elim m.reply_to [ none ↦ rest | some i ↦ i ∷ rest ]

-- loadReplySources: sources in the conversations of the page only.
unfoldable pub load_reply_sources : LogDb → List MessageRow → List MessageRow
unfolding reply_ids
load_reply_sources db ms =
    keep
      (λ (src : MessageRow).
        has src.id (reply_ids ms) && has src.conversation_id (conversation_ids ms))
      db.messages

unfoldable pub load_read_by : LogDb → List MessageRow → List (Uuid × ℕ)
unfolding read_by
load_read_by db ms = map (λ (m : MessageRow). (m.id, read_by db m)) ms

unfoldable pub view : LogDb → MemberRow → ConversationRow → ConversationView
unfolding member_count first_unread_seq
view db cm c = record {
  id = c.id;
  last_seq = c.last_seq;
  member_count = member_count db c.id;
  read_seq = cm.read_seq;
  first_unread_seq = first_unread_seq db cm;
}

-- A conversation that the page serves: it has a message there, or one of its two markers moved.
unfoldable pub is_served : ℕ → ℕ → List Uuid → MemberRow → ConversationRow → Bool
is_served after high on_page cm c =
    has c.id on_page
    || between after high c.metadata_log_seq
    || between after high cm.metadata_log_seq

unfoldable pub views :
    LogDb → Uuid → ℕ → ℕ → List Uuid → List ConversationRow → List ConversationView
unfolding is_served view
views db viewer after high on_page [] = []
views db viewer after high on_page (c ∷ cs) =
    let rest = views db viewer after high on_page cs in
    elim (member_of c.id viewer db.members) [
      | none ↦ rest
      | some cm ↦ if is_served after high on_page cm c then view db cm c ∷ rest else rest
    ]

-- loadConversations.
unfoldable pub load_conversations : LogDb → Uuid → ℕ → ℕ → List MessageRow → List ConversationView
unfolding views
load_conversations db viewer after high ms =
    sort_by (λ (v : ConversationView). v.id)
      (views db viewer after high (conversation_ids ms) db.conversations)

-- The two share a conversation.
unfoldable pub shares : Uuid → Uuid → List MemberRow → List MemberRow → Bool
shares viewer u all [] = false
shares viewer u all (m ∷ ms) =
    let rest = shares viewer u all ms in
    if m.user_id == viewer && is_some (member_of m.conversation_id u all) then true else rest

-- A user that the page names: as an author, of a message or of a source, or as a member.
unfoldable pub is_named :
    LogDb → List MessageRow → List MessageRow → List ConversationView → Uuid → Bool
is_named db ms sources vs u =
    exists (λ (m : MessageRow). m.author_id == u) ms
    || exists (λ (m : MessageRow). m.author_id == u) sources
    || exists (λ (v : ConversationView). is_some (member_of v.id u db.members)) vs

-- loadUsers.
unfoldable pub load_users :
    LogDb
    → Uuid
    → ℕ
    → ℕ
    → List MessageRow
    → List MessageRow
    → List ConversationView
    → List PersonRow
unfolding is_named shares
load_users db viewer after high ms sources vs =
    sort_by (λ (p : PersonRow). p.id)
      (keep
        (λ (p : PersonRow).
          is_named db ms sources vs p.id
          || (between after high p.metadata_log_seq && shares viewer p.id db.members db.members))
        db.people)

-- What the five loads make of a cut.
unfoldable pub assemble : LogDb → Uuid → ℕ → List MessageRow × ℕ × Bool → SyncPage
unfolding load_attachments load_reply_sources load_read_by load_conversations load_users
assemble db viewer after (ms, high, more) =
    let sources = load_reply_sources db ms in
    let vs = load_conversations db viewer after high ms in
    record {
      messages = ms;
      attachments = load_attachments db ms;
      reply_sources = sources;
      read_by = load_read_by db ms;
      conversations = vs;
      users = load_users db viewer after high ms sources vs;
      high_water = high;
      has_more = more;
    }

-- Sync.
unfoldable pub sync : Uuid → ℕ → ℤ → LogDb → SyncPage
unfolding assemble cut scan clamp_limit
sync viewer after limit db =
    assemble db viewer after (cut (clamp_limit limit) db.log_counter (scan viewer after db))
