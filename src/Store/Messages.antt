-- ===== src/Store/Messages.antt =====
-- internal/store/messages.go: SendMessage without its log lines. The checks read one state of the
-- tables, `seen`; from the resolver on, the statements meet another, `db`, which other sends may have
-- changed since. A statement that fails is a position of `fails`; the transaction then rolls back.
pub mod Effect
pub mod Numbers
use catenary.Prelude.{
  ℕ, suc, Bool, true, false, not, ◌&&◌, ◌||◌, Option, none, some, List, [], ◌∷◌, ◌++◌, ◌==◌, ltb,
  is_some, length, if◌then◌else◌, map,
}
use catenary.Store.Tables.{Uuid, Time}
use catenary.Store.Log.{
  Text, MessageRow, UploadRow, AttachmentRow, NotifyPayload, new_message, LogDb, conversation_of,
  member_of, by_key, draw_seq, source_in,
}
use catenary.Store.Uploads.{NewAttachment, Resolver, place}

pub record NewMessage : Type 0 where
  pub conversation_id : Uuid
  pub author_id : Uuid
  pub client_id : Uuid  -- 0 is uuid.Nil
  pub sender_device_id : Option Uuid
  pub reply_to : Option Uuid
  pub text : Option Text
  pub attachments : List NewAttachment

pub record Sent : Type 0 where
  pub id : Uuid
  pub conversation_id : Uuid
  pub seq : ℕ
  pub log_seq : ℕ
  pub at : Time
  pub duplicate : Bool

pub data SendError : Type 0 where
  no_client_id message_too_large too_many_attachments conversation_not_found not_a_member :
      SendError
  upload_not_found upload_resolver_contract not_found unavailable : SendError

pub data Answer : Type 0 where
  sent : Sent → Answer
  refused : SendError → Answer

-- The statements of a send, in their order.
pub data Position : Type 0 where
  check resolve_conversation resolve_uploads_at draw_seq_at resolve_reply draw_log_seq : Position
  insert_message insert_attachments notify commit reread : Position

-- What the server and the database put in: an id, the time, and the statements that fail.
pub record Draw : Type 0 where
  pub new_id : Uuid
  pub at : Time
  pub fails : Position → Bool

pub record Limits : Type 0 where
  pub max_message_bytes : ℕ
  pub max_attachments : ℕ

-- The size that checkBounds looks at.
abbrev pub text_bytes : Option Text → ℕ
text_bytes none = 0
text_bytes (some t) = length t

unfoldable pub sent_of : Bool → MessageRow → Sent
sent_of duplicate row = record {
  id = row.id;
  conversation_id = row.conversation_id;
  seq = row.seq;
  log_seq = row.log_seq;
  at = row.at;
  duplicate = duplicate;
}

-- How an attempt's transaction ends.
pub data Attempt : Type 0 where
  committed : Sent → LogDb → Attempt
  existing : Sent → Attempt
  failed : SendError → Attempt
  key_taken : Attempt

-- What resolveUploads gives.
pub data Resolved : Type 0 where
  resolved : List AttachmentRow → List UploadRow → Resolved
  unresolved : SendError → Resolved

unfoldable pub placed : List NewAttachment → List AttachmentRow → List UploadRow → Resolved
placed want rows uploads =
    if not (length rows == length want)
    then unresolved upload_resolver_contract
    else elim (place 0 want rows) [
      | none ↦ unresolved upload_not_found
      | some out ↦ resolved out uploads
    ]

unfoldable pub resolved_by :
    List NewAttachment → Option (List AttachmentRow × List UploadRow) → Resolved
unfolding placed
resolved_by want none = unresolved upload_not_found
resolved_by want (some (rows, uploads)) = placed want rows uploads

module _ (limits : Limits) (resolver : Resolver) (m : NewMessage) (q : Draw) where
  unfoldable pub resolve_uploads : LogDb → Resolved
  unfolding resolved_by
  resolve_uploads db = elim m.attachments [
    | [] ↦ resolved [] db.uploads
    | w ∷ ws ↦
        if q.fails resolve_uploads_at
        then unresolved unavailable
        else resolved_by m.attachments (resolver q.at m.author_id m.attachments db.uploads)
  ]

  -- RULING 4: a source that is not in the conversation is dropped.
  unfoldable pub kept_reply : List MessageRow → Option Uuid → Option Uuid
  kept_reply rows none = none
  kept_reply rows (some i) = if source_in i m.conversation_id rows then some i else none

  unfoldable pub new_row : ℕ → LogDb → MessageRow
  unfolding kept_reply
  new_row last_seq db = record {
    id = q.new_id;
    conversation_id = m.conversation_id;
    author_id = m.author_id;
    seq = suc last_seq;
    log_seq = suc db.log_counter;
    at = q.at;
    text = m.text;
    client_id = some m.client_id;
    sender_device_id = m.sender_device_id;
    reply_to = kept_reply db.messages m.reply_to;
  }

  -- Positions 8 to 12, committed.
  unfoldable pub written : ℕ → List AttachmentRow → List UploadRow → LogDb → LogDb
  unfolding new_row
  written last_seq rows uploads db = record db {
    messages = db.messages ++ new_row last_seq db ∷ [];
    conversations = draw_seq m.conversation_id db.conversations;
    uploads = uploads;
    attachments = db.attachments ++ map (λ row. (q.new_id, row)) rows;
    log_counter = suc db.log_counter;
    notified = db.notified ++ new_message m.conversation_id (suc last_seq) ∷ [];
  }

  -- Positions 8b to 12. The unique constraint speaks at the insert.
  unfoldable pub write : List AttachmentRow → List UploadRow → LogDb → ℕ → Attempt
  unfolding written sent_of
  write rows uploads db last_seq =
      if (is_some m.reply_to && q.fails resolve_reply)
        || q.fails draw_log_seq
        || q.fails insert_message
      then failed unavailable
      else if is_some (by_key m.author_id m.client_id db.messages)
      then key_taken
      else if (ltb 0 (length rows) && q.fails insert_attachments)
          || q.fails notify
          || q.fails commit
      then failed unavailable
      else committed (sent_of false (new_row last_seq db)) (written last_seq rows uploads db)

  -- Position 8.
  unfoldable pub draw : Resolved → LogDb → Attempt
  unfolding write
  draw (unresolved e) db = failed e
  draw (resolved rows uploads) db =
      if q.fails draw_seq_at
      then failed unavailable
      else elim (conversation_of m.conversation_id db.conversations) [
        | none ↦ failed conversation_not_found
        | some c ↦ write rows uploads db c.last_seq
      ]

  -- Positions 5 and 7.
  unfoldable pub join_in : LogDb → LogDb → Attempt
  unfolding draw resolve_uploads
  join_in seen db =
      if q.fails resolve_conversation
      then failed unavailable
      else if not (is_some (conversation_of m.conversation_id seen.conversations))
      then failed conversation_not_found
      else if not (is_some (member_of m.conversation_id m.author_id seen.members))
      then failed not_a_member
      else draw (resolve_uploads db) db

  -- attemptSend.
  unfoldable pub attempt_send : LogDb → LogDb → Attempt
  unfolding join_in sent_of
  attempt_send seen db =
      if q.fails check
      then failed unavailable
      else elim (by_key m.author_id m.client_id seen.messages) [
        | none ↦ join_in seen db
        | some row ↦ existing (sent_of true row)
      ]

  unfoldable pub sent_by_key : LogDb → Answer
  unfolding sent_of
  sent_by_key db =
      if q.fails reread
      then refused unavailable
      else elim (by_key m.author_id m.client_id db.messages) [
        | none ↦ refused not_found
        | some row ↦ sent (sent_of true row)
      ]

  -- The second look under the key, for an upload that was not found.
  unfoldable pub confirm : Answer → Answer
  confirm (sent s) = sent s
  confirm (refused not_found) = refused upload_not_found
  confirm (refused e) = refused e

  unfoldable pub conclude : Attempt → LogDb → Answer × LogDb
  unfolding confirm sent_by_key
  conclude (committed s db') db = (sent s, db')
  conclude (existing s) db = (sent s, db)
  conclude key_taken db = (sent_by_key db, db)
  conclude (failed upload_not_found) db = (confirm (sent_by_key db), db)
  conclude (failed e) db = (refused e, db)

  -- send.
  unfoldable pub send : LogDb → LogDb → Answer × LogDb
  unfolding conclude attempt_send
  send seen db =
      if m.client_id == 0
      then (refused no_client_id, db)
      else if ltb limits.max_message_bytes (text_bytes m.text)
      then (refused message_too_large, db)
      else if ltb limits.max_attachments (length m.attachments)
      then (refused too_many_attachments, db)
      else conclude (attempt_send seen db) db
