-- ===== src/Store/Acts/Log.antt =====
-- internal/store: the log, over any calls that write its tables.
use catenary.Prelude.{
  ℕ, ◌≤◌, ◌≡◌, refl, Bool, true, List, [], ◌∷◌, ◌++◌, arith, exists, exists_mono,
}
use catenary.Store.Tables.{Uuid}
use catenary.Store.Log.{MessageRow, ConversationRow, LogDb, draw_seq}
use catenary.Store.Uploads.{Resolver}
use catenary.Store.Messages.{NewMessage, Draw, Limits, send, written}
use catenary.Store.Messages.Effect.{send-Leaves}
use catenary.Store.Messages.Numbers.{IsLog, Within, send-IsLog}
use catenary.Store.Rooms.{direct_key_of}
use catenary.Store.Sync.Page.{shows, is_row}
use catenary.Store.Acts.{Act, sending, reading, finding_direct, finding_self, grouping, act, acts}
use catenary.Store.Acts.Rests.{Rests, rooms_with, mark_read-Rests}
use catenary.Store.Acts.Rooms.{
  find_or_create_direct-Rests, find_or_create_self-Rests, create_group-Rests,
}

exists-append :
    (q : MessageRow → Bool) (front back : List MessageRow)
    → exists q front ≡ true
    → exists q (front ++ back) ≡ true
exists-append q [] back h = ground arith
exists-append q (x ∷ front) back h = ground (arith, exists-append q front back)

Within-more :
    (low high more : ℕ) (ms : List MessageRow)
    → Within low ms high
    → high ≤ more
    → Within low ms more
Within-more low high more [] w h = omega (arith, w, h)
Within-more low high more (m ∷ ms) w h = (w.0, Within-more m.log_seq high more ms w.1 h)

draw_seq-rooms_with :
    (i : Uuid) (k : List Uuid) (cs : List ConversationRow)
    → rooms_with k (draw_seq i cs) ≡ rooms_with k cs
unfolding draw_seq rooms_with
draw_seq-rooms_with i k [] = refl
draw_seq-rooms_with i k (c ∷ cs) = ground (arith, draw_seq-rooms_with i k cs)

direct_key_of_comm : (a b : Uuid) → direct_key_of a b ≡ direct_key_of b a
direct_key_of_comm a b = ground arith

-- The log and what it shows stay as they are.
module _ (db db' : LogDb) (r : Rests db db') where
  Rests-IsLog : IsLog db → IsLog db'
  Rests-IsLog v = record {
    ordered =
        rw r.messages
          (Within-more 0 db.log_counter db'.log_counter db.messages v.ordered r.counter);
    dense = λ i. rw (r.messages, r.last_seqs i) (v.dense i);
    keyed = λ a k. rw r.messages (v.keyed a k);
  }

  Rests-shows : (viewer : Uuid) (e : ℕ × ℕ) → shows viewer db e ≡ true → shows viewer db' e ≡ true
  Rests-shows viewer e h = rw r.messages (
      exists_mono (is_row viewer db e) (is_row viewer db' e) db.messages
        (λ m own. ground (arith, own, r.stay m.conversation_id viewer)) h)

module _ (limits : Limits) (resolver : Resolver) where
  -- A proof for the calls that leave the log at rest, and one for a send.
  pub act-cases :
      (P : LogDb → Type 0) (a : Act) (db : LogDb)
      → ((db' : LogDb) → Rests db db' → P db')
      → ((m : NewMessage) (q : Draw) (seen : LogDb) → P (send limits resolver m q seen db).1)
      → P (act limits resolver a db)
  unfolding act
  act-cases P (sending m q seen) db rests sends = sends m q seen
  act-cases P (reading conv user up_to fails) db rests sends =
      rests _ (mark_read-Rests conv user up_to fails db)
  act-cases P (finding_direct viewer handle i fails) db rests sends =
      rests _ (find_or_create_direct-Rests viewer i fails db handle)
  act-cases P (finding_self viewer i fails) db rests sends =
      rests _ (find_or_create_self-Rests viewer i fails db)
  act-cases P (grouping g i fails) db rests sends = rests _ (create_group-Rests g i fails db)

  -- Every send, receipt and new room keeps the log: positions strictly ascend and stay at or
  -- below the counter, each conversation's ordinals are 1, 2 and so on to its last one with no
  -- hole, and no key of an author stands on two messages, whatever earlier tables a send's
  -- checks saw.
  pub act-IsLog : (a : Act) (db : LogDb) → IsLog db → IsLog (act limits resolver a db)
  act-IsLog a db v =
      act-cases IsLog a db (λ db' r. Rests-IsLog db db' r v)
        (λ m q seen. send-IsLog limits resolver m q db seen v)

  pub act-shows :
      (a : Act) (db : LogDb) (viewer : Uuid) (e : ℕ × ℕ)
      → shows viewer db e ≡ true
      → shows viewer (act limits resolver a db) e ≡ true
  unfolding written
  act-shows a db viewer e h =
      act-cases (λ d. shows viewer d e ≡ true) a db (λ db' r. Rests-shows db db' r viewer e h)
        (λ m q seen.
          send-Leaves limits resolver m q db (λ d. shows viewer d e ≡ true) h
            (λ rows uploads c found new. exists-append _ db.messages _ h) seen)

  pub act-counter : (a : Act) (db : LogDb) → db.log_counter ≤ (act limits resolver a db).log_counter
  unfolding written
  act-counter a db =
      act-cases (λ d. db.log_counter ≤ d.log_counter) a db (λ db' r. r.counter)
        (λ m q seen.
          send-Leaves limits resolver m q db (λ d. db.log_counter ≤ d.log_counter) (omega arith)
            (λ rows uploads c found new. omega arith) seen)

  pub acts-Keeps :
      (as' : List Act) (db : LogDb) (viewer : Uuid) (e : ℕ × ℕ)
      → IsLog db
      → shows viewer db e ≡ true
      → IsLog (acts limits resolver as' db)
        × (shows viewer (acts limits resolver as' db) e ≡ true)
        × (db.log_counter ≤ (acts limits resolver as' db).log_counter)
  acts-Keeps [] db viewer e v h = (v, h, omega arith)
  acts-Keeps (a ∷ as') db viewer e v h =
      let (log, shown, beyond) =
        acts-Keeps as' (act limits resolver a db) viewer e (act-IsLog a db v)
          (act-shows a db viewer e h) in
      (log, shown, omega (arith, beyond, act-counter a db))

  act-one_room :
      (a : Act) (db : LogDb) (k : List Uuid)
      → rooms_with k db.conversations ≤ 1
      → rooms_with k (act limits resolver a db).conversations ≤ 1
  unfolding written
  act-one_room a db k h =
      act-cases (λ d. rooms_with k d.conversations ≤ 1) a db (λ db' r. r.one_room k h)
        (λ m q seen.
          send-Leaves limits resolver m q db (λ d. rooms_with k d.conversations ≤ 1) h
            (λ rows uploads c found new.
              rw (draw_seq-rooms_with m.conversation_id k db.conversations) h)
            seen)

  -- Two people have at most one direct conversation, whoever of them asks and whatever calls
  -- are made, if they had at most one before.
  pub acts-one_direct :
      (as' : List Act) (db : LogDb) (a b : Uuid)
      → rooms_with (direct_key_of a b) db.conversations ≤ 1
      → (rooms_with (direct_key_of a b) (acts limits resolver as' db).conversations ≤ 1)
        × (rooms_with (direct_key_of b a) (acts limits resolver as' db).conversations ≤ 1)
  acts-one_direct [] db a b h = (h, rw (direct_key_of_comm b a) h)
  acts-one_direct (x ∷ as') db a b h =
      acts-one_direct as' (act limits resolver x db) a b (act-one_room x db (direct_key_of a b) h)
