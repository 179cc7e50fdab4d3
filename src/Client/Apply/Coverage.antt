-- ===== src/Client/Apply/Coverage.antt =====
-- internal/client/client.go, obligation 2: which log entries the store holds, by the cursor.
use catenary.Prelude.{
  ℕ, ◌≤◌, ◌<◌, ◌≡◌, refl, inl, inr, true, false, not, ◌||◌, List, [], ◌∷◌, arith, Bool-cases,
  if◌then◌else◌, has, member, lookup-insert, ltb,
}
use catenary.Client.State.{
  Message, SyncResponse, ServerReady, Journal, Device, Faults, LogEntry, Conversation, User,
}
use catenary.Client.Apply.{
  record_locked, record_all, put_conversation_locked, put_conversations, put_users, put_user,
  apply_page, apply_live, introduce_conversation, introduce_user, on_receipt, on_ready,
}

-- A log entry at or below the cursor is held.
abbrev pub Covered : LogEntry → Journal → Type 0
Covered e j = (not (ltb 0 e.log_seq) || ltb j.cursor e.log_seq || member e.id j.messages) ≡ true

abbrev pub ids : List Message → List ℕ
ids [] = []
ids (m ∷ ms) = m.id ∷ ids ms

-- No fault that bears on the store, the cursor or the triggers.
pub record IsCorrect (f : Faults) : Type 0 where
  pub by_id : f.dedupe_by_log_seq ≡ false
  pub pages_only : f.cursor_on_live_frames ≡ false
  pub late_end : f.end_catch_up_early ≡ false
  pub retriggers : f.ignore_retrigger ≡ false
  pub wipes : f.skip_wipe ≡ false

-- What a page's messages leave: the store with all of them, and the cursor, the conversations and
-- the wipes as they were.
pub record Recorded (j j' : Journal) (ms : List Message) (k : ℕ) : Type 0 where
  pub held : member k j'.messages ≡ (if has k (ids ms) then true else member k j.messages)
  pub cursor : j'.cursor ≡ j.cursor
  pub has_cursor : j'.has_cursor ≡ j.has_cursor
  pub wipes : j'.wipes ≡ j.wipes

record_locked-Recorded :
    (f : Faults) (j : Journal) (m : Message) (k : ℕ)
    → f.dedupe_by_log_seq ≡ false
    → Recorded j (record_locked f j m) (m ∷ []) k
unfolding record_locked
record_locked-Recorded f j m k h = ground (arith, lookup-insert m.id k m j.messages)

record_all-Recorded :
    (f : Faults) (j : Journal) (ms : List Message) (k : ℕ)
    → f.dedupe_by_log_seq ≡ false
    → Recorded j (record_all f j ms) ms k
unfolding record_all
record_all-Recorded f j [] k h = record {
  held = refl;
  cursor = refl;
  has_cursor = refl;
  wipes = refl;
}
record_all-Recorded f j (m ∷ ms) k h =
    ground
      (arith, record_locked-Recorded f j m k h, record_all-Recorded f (record_locked f j m) ms k h)

-- What an introduction leaves alone.
pub record Same (j j' : Journal) : Type 0 where
  pub messages : j'.messages ≡ j.messages
  pub counted : j'.counted ≡ j.counted
  pub cursor : j'.cursor ≡ j.cursor
  pub has_cursor : j'.has_cursor ≡ j.has_cursor
  pub wipes : j'.wipes ≡ j.wipes

pub put_conversations-Same :
    (f : Faults) (j : Journal) (cvs : List Conversation) → Same j (put_conversations f j cvs)
unfolding put_conversations
put_conversations-Same f j [] = record {
  messages = refl;
  counted = refl;
  cursor = refl;
  has_cursor = refl;
  wipes = refl;
}
put_conversations-Same f j (cv ∷ cvs) =
    ground (arith, put_conversations-Same f (put_conversation_locked f j cv) cvs)

pub put_users-Same : (j : Journal) (us : List User) → Same j (put_users j us)
unfolding put_users
put_users-Same j [] = record {
  messages = refl;
  counted = refl;
  cursor = refl;
  has_cursor = refl;
  wipes = refl;
}
put_users-Same j (u ∷ us) = ground (arith, put_users-Same (put_user j u) us)

-- What the page brings between the cursor that it was asked from and its own.
abbrev pub Brings : LogEntry → ℕ → SyncResponse → Type 0
Brings e after p = after < e.log_seq → e.log_seq ≤ p.log_seq → has e.id (ids p.messages) ≡ true

-- What landing a page leaves of the store and the cursor.
pub record Landed (j j' : Journal) (p : SyncResponse) (k : ℕ) : Type 0 where
  pub held : member k j'.messages ≡ (if has k (ids p.messages) then true else member k j.messages)
  pub cursor :
      j'.cursor ≡ (if not j.has_cursor || ltb j.cursor p.log_seq then p.log_seq else j.cursor)
  pub has_cursor : j'.has_cursor ≡ true
  pub wipes : j'.wipes ≡ j.wipes

pub apply_page-Landed :
    (d : Device) (p : SyncResponse) (epoch k : ℕ)
    → IsCorrect d.client.faults
    → (apply_page d p epoch).1 ≡ true
    → Landed d.journal (apply_page d p epoch).0.journal p k
unfolding apply_page
apply_page-Landed d p epoch k c h =
    let f = d.client.faults in
    let j = record_all f d.journal p.messages in
    let j' = put_conversations f j p.conversations in
    ground (
      arith,
      record_all-Recorded f d.journal p.messages k c.by_id,
      put_conversations-Same f j p.conversations,
      put_users-Same j' p.users,
    )

pub apply_page_dropped :
    (d : Device) (p : SyncResponse) (epoch : ℕ)
    → (apply_page d p epoch).1 ≡ false
    → (apply_page d p epoch).0 ≡ d
unfolding apply_page
apply_page_dropped d p epoch h = ground arith

-- A page keeps a log entry covered: held if it lies at or below the cursor. The client is
-- correct, the page was asked for from at or below the cursor that it lands on, if it lands, and
-- it brings the entry if that lies between there and its own cursor.
pub apply_page-Covered :
    (d : Device) (p : SyncResponse) (epoch after : ℕ) (e : LogEntry)
    → IsCorrect d.client.faults
    → ((apply_page d p epoch).1 ≡ true → after ≤ d.journal.cursor)
    → Brings e after p
    → Covered e d.journal
    → Covered e (apply_page d p epoch).0.journal
apply_page-Covered d p epoch after e c o b v = elim (Bool-cases (apply_page d p epoch).1) [
  | inl landed ↦
      let l = apply_page-Landed d p epoch e.id c landed in let u = o landed in ground (arith, l)
  | inr dropped ↦ rw (apply_page_dropped d p epoch dropped) v
]

module _ (d : Device) (c : IsCorrect d.client.faults) (e : LogEntry) (v : Covered e d.journal) where
  pub apply_live-Covered : (m : Message) → Covered e (apply_live d m).journal
  unfolding apply_live
  apply_live-Covered m = ground (arith, lookup-insert m.id e.id m d.journal.messages)

  pub introduce_conversation-Covered :
      (cv : Conversation) → Covered e (introduce_conversation d cv).journal
  unfolding introduce_conversation
  introduce_conversation-Covered cv = ground arith

  pub introduce_user-Covered : (u : User) → Covered e (introduce_user d u).journal
  unfolding introduce_user
  introduce_user-Covered u = ground arith

  pub on_receipt-Covered : (u : ℕ) → Covered e (on_receipt d u).journal
  unfolding on_receipt
  on_receipt-Covered u = ground arith

  pub on_ready-Covered : (r : ServerReady) → Covered e (on_ready d r).journal
  unfolding on_ready
  on_ready-Covered r = ground arith
