-- ===== src/Store/Acts/Retry.antt =====
-- internal/store/messages.go: a send again under its key, and a send that is refused.
use catenary.Prelude.{
  ◌≡◌, refl, Bool, true, false, some, List, [], ◌∷◌, ◌++◌, ◌==◌, arith, ltb, is_some, length,
}
use mathlib.Core.Path.{subst}
use catenary.Store.Tables.{Uuid}
use catenary.Store.Log.{MessageRow, LogDb, by_key, has_key}
use catenary.Store.Uploads.{Resolver}
use catenary.Store.Messages.{
  NewMessage, Draw, Limits, Sent, Answer, sent, send, sent_of, check, written, new_row, text_bytes,
  conclude, attempt_send,
}
use catenary.Store.Acts.{Act, act, acts}
use catenary.Store.Acts.Log.{act-cases}
use catenary.Store.Messages.Effect.{send-Leaves, send-ends}

module _ (limits : Limits) (resolver : Resolver) where
  by_key-append :
      (a k : Uuid) (front back : List MessageRow) (row : MessageRow)
      → by_key a k front ≡ some row
      → by_key a k (front ++ back) ≡ some row
  unfolding by_key
  by_key-append a k [] back row h = ground arith
  by_key-append a k (x ∷ front) back row h = ground (arith, by_key-append a k front back row)

  by_key-append_new :
      (a k : Uuid) (front : List MessageRow) (row : MessageRow)
      → is_some (by_key a k front) ≡ false
      → has_key a k row ≡ true
      → by_key a k (front ++ row ∷ []) ≡ some row
  unfolding by_key
  by_key-append_new a k [] row h own = ground arith
  by_key-append_new a k (x ∷ front) row h own = ground (arith, by_key-append_new a k front row)

  act-by_key :
      (x : Act) (db : LogDb) (a k : Uuid) (row : MessageRow)
      → by_key a k db.messages ≡ some row
      → by_key a k (act limits resolver x db).messages ≡ some row
  unfolding written
  act-by_key x db a k row h =
      act-cases limits resolver (λ d. by_key a k d.messages ≡ some row) x db
        (λ db' r. rw r.messages h)
        (λ m q seen.
          send-Leaves limits resolver m q db (λ d. by_key a k d.messages ≡ some row) h
            (λ rows uploads c found new. by_key-append a k db.messages _ row h) seen)

  acts-by_key :
      (xs : List Act) (db : LogDb) (a k : Uuid) (row : MessageRow)
      → by_key a k db.messages ≡ some row
      → by_key a k (acts limits resolver xs db).messages ≡ some row
  acts-by_key [] db a k row h = h
  acts-by_key (x ∷ xs) db a k row h = acts-by_key xs _ a k row (act-by_key x db a k row h)

  module _ (m : NewMessage) (q : Draw) where
    -- The row stands under the key, and it is what was answered.
    abbrev Held : Answer × LogDb → Type 0
    Held r =
        (s : Sent)
        → r.0 ≡ sent s
        → (row : MessageRow) × (by_key m.author_id m.client_id r.1.messages ≡ some row)
          × (sent_of true row ≡ record s { duplicate = true })

    as_duplicate :
        (row : MessageRow) (s : Sent) (b : Bool)
        → sent (sent_of b row) ≡ sent s
        → sent_of true row ≡ record s { duplicate = true }
    unfolding sent_of
    as_duplicate row s b h = ground arith

    send-Held :
        (seen : LogDb) (between : List Act)
        → Held (send limits resolver m q seen (acts limits resolver between seen))
    unfolding written has_key new_row
    send-Held seen between =
        let db = acts limits resolver between seen in
        send-ends limits resolver m q seen db Held (record {
          refuses = λ e s h. absurd (ground arith);
          replays_seen =
              λ row h s eq. (row, acts-by_key between seen _ _ row h, as_duplicate row s true eq);
          replays = λ row h s eq. (row, h, as_duplicate row s true eq);
          commits = λ rows uploads c h new s eq. (
            new_row limits resolver m q c.last_seq db,
            by_key-append_new _ _ db.messages _ new (ground arith),
            as_duplicate _ s false eq,
          );
        })

    send_checked :
        (seen db : LogDb) (s : Sent)
        → (send limits resolver m q seen db).0 ≡ sent s
        → ((m.client_id == 0) ≡ false)
          × (ltb limits.max_message_bytes (text_bytes m.text) ≡ false)
          × (ltb limits.max_attachments (length m.attachments) ≡ false)
    unfolding send
    send_checked seen db s h = ground arith

    -- A send whose key stands on a row, within the bounds.
    send_found :
        (q' : Draw) (db : LogDb) (row : MessageRow)
        → (m.client_id == 0) ≡ false
        → ltb limits.max_message_bytes (text_bytes m.text) ≡ false
        → ltb limits.max_attachments (length m.attachments) ≡ false
        → q'.fails check ≡ false
        → by_key m.author_id m.client_id db.messages ≡ some row
        → send limits resolver m q' db db ≡ (sent (sent_of true row), db)
    unfolding send attempt_send conclude
    send_found q' db row keyed small few up found = rw (keyed, small, few, up, found) refl

    -- A send that was answered, sent again after any other calls, gets the same id,
    -- conversation, ordinals and time, marked as a duplicate, and writes nothing, if the look
    -- for its key does not fail.
    pub send-retry :
        (s : Sent) (q' : Draw) (seen : LogDb) (between later : List Act)
        → (send limits resolver m q seen (acts limits resolver between seen)).0 ≡ sent s
        → q'.fails check ≡ false
        → let db =
            acts limits resolver later
              (send limits resolver m q seen (acts limits resolver between seen)).1 in
          send limits resolver m q' db db ≡ (sent (record s { duplicate = true }), db)
    send-retry s q' seen between later h up =
        let (row, found, is) = send-Held seen between s h in
        let (keyed, small, few) = send_checked seen (acts limits resolver between seen) s h in
        let d = (send limits resolver m q seen (acts limits resolver between seen)).1 in
        let held = acts-by_key later d m.author_id m.client_id row found in
        subst
          (λ a.
            send limits resolver m q' (acts limits resolver later d) (acts limits resolver later d)
            ≡ (sent a, acts limits resolver later d))
          is (send_found q' (acts limits resolver later d) row keyed small few up held)
