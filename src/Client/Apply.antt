-- ===== src/Client/Apply.antt =====
-- internal/client/client.go, the journal writes: live frames, introductions, receipts, pages and
-- `ready`, each as the device that it leaves. A lock is one step; the steps of one handler follow
-- each other as its lock sections do.
pub mod Coverage
pub mod Counted
use catenary.Prelude.{
  ℕ, ◌+◌, ◌%◌, ◌^◌, ◌≡◌, Bool, true, false, ◌&&◌, ◌||◌, not, Option, none, some, List, [], ◌∷◌,
  ◌++◌, ltb, leb, ◌==◌, if◌then◌else◌, insert, member, lookup, max,
}
use catenary.Client.State.{
  Message, Conversation, User, SyncResponse, ServerReady, Faults, Journal, Client, Device, Stats,
  Credential, Uuid, empty, second,
}
use catenary.Client.Journal.{reset_locked}

-- uint64.
abbrev pub u64 : ℕ → ℕ
u64 n = n % 2 ^ 64

unfoldable pub trigger_locked : Client → Client
trigger_locked c =
    if c.faults.ignore_retrigger && c.in_pass then c else record c { gen = u64 (c.gen + 1) }

-- recordLocked: the dedupe key is the id.
unfoldable pub record_locked : Faults → Journal → Message → Journal
record_locked f j m =
    if f.dedupe_by_log_seq
    then (if j.has_cursor && leb m.log_seq j.cursor
        then j
        else record j { messages = insert m.id m j.messages; counted = j.counted ++ m.id ∷ [] })
    else record j {
      messages = insert m.id m j.messages;
      counted = if member m.id j.messages then j.counted else j.counted ++ m.id ∷ [];
    }

unfoldable pub put_conversation_locked : Faults → Journal → Conversation → Journal
put_conversation_locked f j cv =
    if member cv.id j.conversations && f.keep_held_conversation
    then j
    else record j { conversations = insert cv.id cv j.conversations }

abbrev pub put_user : Journal → User → Journal
put_user j u = record j { users = insert u.id u j.users }

count_introduction : Client → Client
count_introduction c = record c {
  stats = record c.stats { introduction_discards = c.stats.introduction_discards + 1 };
}

count_live : Client → Client
count_live c = record c { stats = record c.stats { live_frames = c.stats.live_frames + 1 } }

-- The fault that moves the cursor on a live frame.
live_cursor : Faults → Message → Journal → Journal
live_cursor f m j =
    if f.cursor_on_live_frames && (not j.has_cursor || ltb j.cursor m.log_seq)
    then record j { cursor = m.log_seq; has_cursor = true }
    else j

unfoldable pub apply_live : Device → Message → Device
unfolding count_introduction count_live live_cursor record_locked trigger_locked
apply_live d m =
    if d.client.killed
    then d
    else if not (member m.conversation_id d.journal.conversations)
        || not (member m.author_id d.journal.users)
    then record d { client = trigger_locked (count_introduction d.client) }
    else record d {
      client = count_live d.client;
      journal = live_cursor d.client.faults m (record_locked d.client.faults d.journal m);
    }

-- applyIntroduction, with one of its two arguments.
unfoldable pub introduce_conversation : Device → Conversation → Device
unfolding put_conversation_locked
introduce_conversation d cv =
    if d.client.killed
    then d
    else record d { journal = put_conversation_locked d.client.faults d.journal cv }

unfoldable pub introduce_user : Device → User → Device
introduce_user d u = if d.client.killed then d else record d { journal = put_user d.journal u }

abbrev pub trigger : Device → Device
trigger d = record d { client = trigger_locked d.client }

-- The user that the held credential speaks as, the empty string for none.
abbrev pub self : Option Credential → Uuid
self none = empty
self (some c) = c.user_id

unfoldable pub on_receipt : Device → Uuid → Device
unfolding trigger_locked
on_receipt d user_id =
    let me = self d.journal.credential in
    if not (me == empty) && user_id == me then trigger d else d

-- The `resync_required` arm of session.
unfoldable pub on_resync : Device → Device
unfolding trigger_locked
on_resync d = record d {
  client =
      trigger_locked (record d.client {
        stats = record d.client.stats { resyncs = d.client.stats.resyncs + 1 };
      });
}

-- Obligation 4: the server's log is behind the cursor.
abbrev pub discards : Journal → ServerReady → Bool
discards j r = j.has_cursor && ltb r.log_seq j.cursor

wipe : Journal → Journal
unfolding reset_locked
wipe j = record (reset_locked j) { wipes = j.wipes + 1 }

ready_client : Client → ServerReady → Bool → Client
ready_client c r discard = record c {
  ready = true;
  connecting = false;
  session_id = r.session_id;
  interval = r.heartbeat_interval_sec;
  missed_limit = r.missed_pong_limit;
  from0 = if discard && c.faults.skip_wipe then true else c.from0;
  stats = record c.stats {
    readys = c.stats.readys + 1;
    discards = if discard then c.stats.discards + 1 else c.stats.discards;
  };
}

unfoldable pub on_ready : Device → ServerReady → Device
unfolding wipe ready_client trigger_locked
on_ready d r =
    let discard = discards d.journal r in
    record d {
      journal =
          if discard && not d.client.faults.skip_wipe && not d.client.killed
          then wipe d.journal
          else d.journal;
      client = trigger_locked (ready_client d.client r discard);
    }

unfoldable pub record_all : Faults → Journal → List Message → Journal
unfolding record_locked
record_all f j [] = j
record_all f j (m ∷ ms) = record_all f (record_locked f j m) ms

unfoldable pub put_conversations : Faults → Journal → List Conversation → Journal
unfolding put_conversation_locked
put_conversations f j [] = j
put_conversations f j (cv ∷ cvs) = put_conversations f (put_conversation_locked f j cv) cvs

unfoldable pub put_users : Journal → List User → Journal
put_users j [] = j
put_users j (u ∷ us) = put_users (put_user j u) us

-- The cursor only moves forward.
abbrev pub move_cursor : ℕ → Journal → Journal
move_cursor to j = record j {
  cursor = if not j.has_cursor || ltb j.cursor to then to else j.cursor;
  has_cursor = true;
}

-- applyPage: the device, and whether the page landed.
unfoldable pub apply_page : Device → SyncResponse → ℕ → Device × Bool
unfolding record_all put_conversations put_users
apply_page d p epoch =
    if d.client.killed || not (d.journal.wipes == epoch)
    then (d, false)
    else let f = d.client.faults in
      let j = record_all f d.journal p.messages in
      let j' = put_users (put_conversations f j p.conversations) p.users in
      (record d { journal = move_cursor p.log_seq j' }, true)
