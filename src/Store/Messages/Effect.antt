-- ===== src/Store/Messages/Effect.antt =====
-- internal/store/messages.go: what a send may leave of the tables.
use catenary.Prelude.{
  ◌≡◌, inl, inr, true, false, not, ◌&&◌, ◌||◌, some, List, ◌==◌, ltb, is_some, length, Option-cases,
  split,
}
use catenary.Store.Log.{
  MessageRow, UploadRow, AttachmentRow, ConversationRow, LogDb, conversation_of, member_of, by_key,
}
use catenary.Store.Uploads.{Resolver}
use catenary.Store.Messages.{
  NewMessage, Draw, Limits, Answer, sent, refused, SendError, upload_not_found, not_found, sent_of,
  sent_by_key, confirm, reread, new_row, Attempt, failed, Resolved, resolved, unresolved, written,
  write, draw, draw_seq_at, resolve_reply, draw_log_seq, insert_message, insert_attachments, notify,
  commit, join_in, attempt_send, conclude, send, resolve_uploads, check, resolve_conversation,
  text_bytes,
}

module _ (limits : Limits) (resolver : Resolver) (m : NewMessage) (q : Draw) (seen db : LogDb) where
  -- One proof for each way that a send ends: refused, found under its key, or committed.
  pub record Ends (P : Answer × LogDb → Type 0) : Type 1 where
    pub refuses : (e : SendError) → P (refused e, db)
    pub replays_seen :
        (row : MessageRow)
        → by_key m.author_id m.client_id seen.messages ≡ some row
        → P (sent (sent_of true row), db)
    pub replays :
        (row : MessageRow)
        → by_key m.author_id m.client_id db.messages ≡ some row
        → P (sent (sent_of true row), db)
    pub commits :
        (rows : List AttachmentRow) (uploads : List UploadRow) (c : ConversationRow)
        → conversation_of m.conversation_id db.conversations ≡ some c
        → is_some (by_key m.author_id m.client_id db.messages) ≡ false
        → P (
          sent (sent_of false (new_row limits resolver m q c.last_seq db)),
          written limits resolver m q c.last_seq rows uploads db,
        )

  module _ (P : Answer × LogDb → Type 0) (ends : Ends P) where
    abbrev Concludes : Attempt → Type 0
    Concludes a = P (conclude limits resolver m q a db)

    sent_by_key-ends : P (sent_by_key limits resolver m q db, db)
    unfolding sent_by_key
    sent_by_key-ends =
        split (λ (a : Answer). P (a, db)) (q.fails reread) (λ _. ends.refuses _)
          (λ _. elim (Option-cases (by_key m.author_id m.client_id db.messages)) [
            | inl h ↦ rw h (ends.refuses _)
            | inr (row, h) ↦ rw h (ends.replays row h)
          ])

    confirm-ends : (a : Answer) → P (a, db) → P (confirm limits resolver m q a, db)
    unfolding confirm
    confirm-ends (sent s) p = p
    confirm-ends (refused not_found) p = ends.refuses _
    confirm-ends (refused e) p = p

    failed-ends : (e : SendError) → Concludes (failed e)
    unfolding conclude
    failed-ends upload_not_found = confirm-ends _ sent_by_key-ends
    failed-ends e = ends.refuses _

    write-ends :
        (rows : List AttachmentRow) (uploads : List UploadRow) (c : ConversationRow)
        → conversation_of m.conversation_id db.conversations ≡ some c
        → Concludes (write limits resolver m q rows uploads db c.last_seq)
    unfolding write conclude
    write-ends rows uploads c h =
        split Concludes
          ((is_some m.reply_to && q.fails resolve_reply)
            || q.fails draw_log_seq
            || q.fails insert_message)
          (λ _. ends.refuses _)
          (λ _.
            split Concludes (is_some (by_key m.author_id m.client_id db.messages))
              (λ _. sent_by_key-ends)
              (λ new.
                split Concludes
                  ((ltb 0 (length rows) && q.fails insert_attachments)
                    || q.fails notify
                    || q.fails commit)
                  (λ _. ends.refuses _) (λ _. ends.commits rows uploads c h new)))

    draw-ends : (r : Resolved) → Concludes (draw limits resolver m q r db)
    unfolding draw conclude
    draw-ends (unresolved e) = failed-ends e
    draw-ends (resolved rows uploads) =
        split Concludes (q.fails draw_seq_at) (λ _. ends.refuses _)
          (λ _. elim (Option-cases (conversation_of m.conversation_id db.conversations)) [
            | inl h ↦ rw h (ends.refuses _)
            | inr (c, h) ↦ rw h (write-ends rows uploads c h)
          ])

    join_in-ends : Concludes (join_in limits resolver m q seen db)
    unfolding join_in conclude
    join_in-ends =
        split Concludes (q.fails resolve_conversation) (λ _. ends.refuses _)
          (λ _.
            split Concludes (not (is_some (conversation_of m.conversation_id seen.conversations)))
              (λ _. ends.refuses _)
              (λ _.
                split Concludes
                  (not (is_some (member_of m.conversation_id m.author_id seen.members)))
                  (λ _. ends.refuses _) (λ _. draw-ends (resolve_uploads limits resolver m q db))))

    attempt_send-ends : Concludes (attempt_send limits resolver m q seen db)
    unfolding attempt_send conclude
    attempt_send-ends =
        split Concludes (q.fails check) (λ _. ends.refuses _)
          (λ _. elim (Option-cases (by_key m.author_id m.client_id seen.messages)) [
            | inl h ↦ rw h join_in-ends
            | inr (row, h) ↦ rw h (ends.replays_seen row h)
          ])

    pub send-ends : P (send limits resolver m q seen db)
    unfolding send
    send-ends =
        split P (m.client_id == 0) (λ _. ends.refuses _)
          (λ _.
            split P (ltb limits.max_message_bytes (text_bytes m.text)) (λ _. ends.refuses _)
              (λ _.
                split P (ltb limits.max_attachments (length m.attachments)) (λ _. ends.refuses _)
                  (λ _. attempt_send-ends)))

module _ (limits : Limits) (resolver : Resolver) (m : NewMessage) (q : Draw) (db : LogDb) where
  -- What the one commit of a send leaves satisfies P.
  abbrev pub Commits : (LogDb → Type 0) → Type 0
  Commits P =
      (rows : List AttachmentRow) (uploads : List UploadRow) (c : ConversationRow)
      → conversation_of m.conversation_id db.conversations ≡ some c
      → is_some (by_key m.author_id m.client_id db.messages) ≡ false
      → P (written limits resolver m q c.last_seq rows uploads db)

  -- Whatever was seen, a send leaves the tables as they were or as its one commit leaves them.
  pub send-Leaves :
      (P : LogDb → Type 0)
      → P db
      → Commits P
      → (seen : LogDb) → P (send limits resolver m q seen db).1
  send-Leaves P kept commits seen =
      send-ends limits resolver m q seen db (λ r. P r.1)
        (record {
          refuses = λ e. kept;
          replays_seen = λ row h. kept;
          replays = λ row h. kept;
          commits = commits;
        })
