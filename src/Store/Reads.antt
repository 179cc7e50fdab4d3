-- ===== src/Store/Reads.antt =====
-- internal/store/readstate.go: MarkRead and FirstUnreadSeq, and internal/store/hello.go: Hello. A
-- position below 1 is 0; a statement that fails is a flag.
pub mod Positions
pub mod Settled
use catenary.Prelude.{
  ℕ, suc, min, max, Bool, true, false, Option, none, some, List, [], ◌∷◌, ◌++◌, ◌==◌, ◌&&◌, ltb,
  if◌then◌else◌,
}
use catenary.Prelude.Int.{ℤ, pos, negsuc, sub_ℕ}
use catenary.Store.Tables.{Uuid}
use catenary.Store.Log.{MemberRow, ConversationRow, LogDb, new_receipt, conversation_of, member_of}
use catenary.Store.Marks.{MetadataBump, new_metadata_bump, apply_bump}
use catenary.Store.Sync.{first_unread_seq}

pub record ReadReceipt : Type 0 where
  pub conversation_id : Uuid
  pub user_id : Uuid
  pub up_to_seq : ℕ
  pub advanced : Bool

pub data ReadAnswer : Type 0 where
  received : ReadReceipt → ReadAnswer
  seq_out_of_range not_a_member read_failed : ReadAnswer

-- SET read_seq, on the one row.
unfoldable pub set_read_seq : Uuid → Uuid → ℕ → List MemberRow → List MemberRow
set_read_seq c u n [] = []
set_read_seq c u n (m ∷ ms) =
    (if m.conversation_id == c && m.user_id == u then record m { read_seq = n } else m)
    ∷ set_read_seq c u n ms

-- LEAST(GREATEST(read_seq, $3), last_seq).
abbrev pub read_up_to : ℕ → ℕ → ℕ → ℕ
read_up_to before up_to last_seq = min (max before up_to) last_seq

-- The marker and the notification of a read that advanced.
unfoldable pub announce : Uuid → Uuid → ℕ → ℕ → Option LogDb → Option LogDb
announce conv user before after none = none
announce conv user before after (some db) =
    some (record db { notified = db.notified ++ new_receipt conv user before after ∷ [] })

unfoldable pub settle_read : Uuid → Uuid → ℕ → ℕ → LogDb → Option LogDb
unfolding announce
settle_read conv user before after db =
    if ltb before after
    then announce conv user before after
        (apply_bump (record new_metadata_bump { members = (conv, user) ∷ [] }) db)
    else some db

unfoldable pub commit_read : ReadReceipt → LogDb → Option LogDb → ReadAnswer × LogDb
commit_read r db none = (read_failed, db)
commit_read r db (some db') = (received r, db')

unfoldable pub read_in :
    Uuid → Uuid → ℕ → Bool → MemberRow → Option ConversationRow → LogDb → ReadAnswer × LogDb
unfolding settle_read commit_read set_read_seq
read_in conv user up_to fails m none db = (read_failed, db)
read_in conv user up_to fails m (some c) db =
    let after = read_up_to m.read_seq up_to c.last_seq in
    if fails
    then (read_failed, db)
    else commit_read
        (record {
          conversation_id = conv;
          user_id = user;
          up_to_seq = after;
          advanced = ltb m.read_seq after;
        })
        db
        (settle_read conv user m.read_seq after
          (record db { members = set_read_seq conv user after db.members }))

unfoldable pub read_as : Uuid → Uuid → ℕ → Bool → Option MemberRow → LogDb → ReadAnswer × LogDb
unfolding read_in
read_as conv user up_to fails none db = (not_a_member, db)
read_as conv user up_to fails (some m) db =
    read_in conv user up_to fails m (conversation_of conv db.conversations) db

-- MarkRead.
unfoldable pub mark_read : Uuid → Uuid → ℕ → Bool → LogDb → ReadAnswer × LogDb
unfolding read_as
mark_read conv user up_to fails db =
    if ltb up_to 1
    then (seq_out_of_range, db)
    else read_as conv user up_to fails (member_of conv user db.members) db

-- FirstUnreadSeq: the outer none is the refusal of someone who is not a member.
unfoldable pub first_unread : Uuid → Uuid → LogDb → Option (Option ℕ)
unfolding first_unread_seq
first_unread conv viewer db = elim (member_of conv viewer db.members) [
  | none ↦ none
  | some cm ↦ some (first_unread_seq db cm)
]

pub data HelloOutcome : Type 0 where
  no_cursor behind at_head cursor_ahead : HelloOutcome

pub record HelloResult : Type 0 where
  pub outcome : HelloOutcome
  pub head : ℕ
  pub cursor : Option ℕ
  pub delta : ℤ

abbrev pub outcome_of : ℤ → HelloOutcome
outcome_of (negsuc n) = cursor_ahead
outcome_of (pos n) = if n == 0 then at_head else behind

-- Hello, of a cursor that is a position in the log or no cursor; a negative one is refused, with none.
unfoldable pub hello : Option ℤ → LogDb → Option HelloResult
hello none db =
    some (record { outcome = no_cursor; head = db.log_counter; cursor = none; delta = pos 0 })
hello (some (negsuc n)) db = none
hello (some (pos n)) db =
    let delta = sub_ℕ db.log_counter n in
    some
      (record { outcome = outcome_of delta; head = db.log_counter; cursor = some n; delta = delta })
