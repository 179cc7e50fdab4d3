-- ===== src/Store/Reads/Settled.antt =====
-- internal/store/readstate.go: a receipt, and the same receipt or an older one after it.
use catenary.Prelude.{
  ℕ, suc, ◌≤◌, ◌≡◌, refl, ap, ◌∙◌, Bool, true, false, not, ◌||◌, Option, none, some, List, [], ◌∷◌,
  arith, ltb, is_some, split,
}
use mathlib.Core.Path.{subst}
use catenary.Store.Log.{ConversationRow, MemberRow, LogDb, conversation_of, member_of}
use catenary.Store.Marks.{
  MetadataBump, new_metadata_bump, has_conversations, has_members, has_people, mark_people,
  apply_bump, mark_members, mark_conversations, is_nothing,
}
use catenary.Store.Reads.{
  ReadReceipt, ReadAnswer, received, mark_read, read_as, read_in, read_up_to, settle_read, announce,
  commit_read, set_read_seq,
}
use catenary.Store.Reads.Positions.{
  IsAt, set_read_seq-IsAt, mark_members-IsAt, Stands, read_standing,
}

-- What a transaction that commits leaves.
abbrev IfStands : ℕ → ℕ → ℕ → ℕ → Option LogDb → Type 0
IfStands conv user n at none = Unit
IfStands conv user n at (some d) = Stands conv user at d n

mark_conversations_none : (v : ℕ) (cs : List ConversationRow) → mark_conversations [] v cs ≡ cs
unfolding mark_conversations
mark_conversations_none v [] = refl
mark_conversations_none v (c ∷ cs) = ap (λ xs. c ∷ xs) (mark_conversations_none v cs)

mark_members-member_of :
    (ks : List (ℕ × ℕ)) (v c u : ℕ) (ms : List MemberRow)
    → is_some (member_of c u (mark_members ks v ms)) ≡ is_some (member_of c u ms)
unfolding mark_members member_of
mark_members-member_of ks v c u [] = refl
mark_members-member_of ks v c u (m ∷ ms) = ground (arith, mark_members-member_of ks v c u ms)

set_read_seq-member_of :
    (c u n : ℕ) (ms : List MemberRow)
    → is_some (member_of c u (set_read_seq c u n ms)) ≡ is_some (member_of c u ms)
unfolding set_read_seq member_of
set_read_seq-member_of c u n [] = refl
set_read_seq-member_of c u n (m ∷ ms) = ground (arith, set_read_seq-member_of c u n ms)

module _ (conv user n : ℕ) (db : LogDb) (n' : ℕ) (le : n' ≤ n) where
  -- A receipt that was given stands where it says.
  After : ReadAnswer × LogDb → Type 0
  After o = (r : ReadReceipt) → o.0 ≡ received r → Stands conv user r.up_to_seq o.1 n'

  module _ (m : MemberRow) (c : ConversationRow) (found : member_of conv user db.members ≡ some m)
      (known : conversation_of conv db.conversations ≡ some c) where
    abbrev at : ℕ
    at = read_up_to m.read_seq n c.last_seq

    written_Stands :
        (d : LogDb)
        → d.conversations ≡ db.conversations
        → IsAt conv user at d.members
        → is_some (member_of conv user d.members) ≡ true
        → Stands conv user at d n'
    written_Stands d cs here there = record {
      here = here;
      member = there;
      conversation = c;
      known = rw cs known;
      stays = ground (arith, le);
    }

    abbrev marks : MetadataBump
    marks = record new_metadata_bump { members = (conv, user) ∷ [] }

    apply_bump-IfStands :
        (d : LogDb)
        → d.conversations ≡ db.conversations
        → IsAt conv user at d.members
        → is_some (member_of conv user d.members) ≡ true
        → IfStands conv user n' at (apply_bump marks d)
    unfolding apply_bump
    apply_bump-IfStands d cs here there =
        split (IfStands conv user n' at)
          (is_nothing marks
            || not (has_conversations marks.conversations d.conversations)
            || not (has_members marks.members d.members)
            || not (has_people marks.users d.people))
          {x = none}
          {y = some (record d {
            log_counter = suc d.log_counter;
            conversations =
                mark_conversations marks.conversations (suc d.log_counter) d.conversations;
            members = mark_members marks.members (suc d.log_counter) d.members;
            people = mark_people marks.users (suc d.log_counter) d.people;
          })}
          (λ _. tt)
          (λ _.
            written_Stands _ (mark_conversations_none (suc d.log_counter) d.conversations ∙ cs)
              (mark_members-IsAt conv user at marks.members (suc d.log_counter) d.members here)
              (mark_members-member_of marks.members (suc d.log_counter) conv user d.members
                ∙ there))

    announce-IfStands :
        (before : ℕ) (o : Option LogDb)
        → IfStands conv user n' at o
        → IfStands conv user n' at (announce conv user before at o)
    unfolding announce
    announce-IfStands before none s = s
    announce-IfStands before (some d) s = record {
      here = s.here;
      member = s.member;
      conversation = s.conversation;
      known = s.known;
      stays = s.stays;
    }

    settle_read-IfStands :
        (d : LogDb)
        → d.conversations ≡ db.conversations
        → IsAt conv user at d.members
        → is_some (member_of conv user d.members) ≡ true
        → IfStands conv user n' at (settle_read conv user m.read_seq at d)
    unfolding settle_read
    settle_read-IfStands d cs here there =
        split (IfStands conv user n' at) (ltb m.read_seq at)
          (λ _. announce-IfStands m.read_seq _ (apply_bump-IfStands d cs here there))
          (λ _. written_Stands d cs here there)

    commit_read-After :
        (o : Option LogDb)
        → IfStands conv user n' at o
        → After (
            commit_read
              (record {
                conversation_id = conv;
                user_id = user;
                up_to_seq = at;
                advanced = ltb m.read_seq at;
              })
              db
              o)
    unfolding commit_read After
    commit_read-After none s = λ r h. absurd (ground (arith, h))
    commit_read-After (some d) s = λ r h.
        let eq : at ≡ r.up_to_seq = ground (arith, h) in subst (λ x. Stands conv user x d n') eq s

  mark_read-After : (fails : Bool) → After (mark_read conv user n fails db)
  unfolding mark_read read_as read_in After
  mark_read-After fails =
      split After (ltb n 1) (λ _ r h. absurd (ground (arith, h)))
        (λ _. go (member_of conv user db.members) refl)
    where
      inner :
          (m : MemberRow)
          → member_of conv user db.members ≡ some m
          → (o : Option ConversationRow) → conversation_of conv db.conversations ≡ o
          → After (read_in conv user n fails m o db)
      inner m found none known = λ r h. absurd (ground (arith, h))
      inner m found (some c) known =
          split After fails (λ _ r h. absurd (ground (arith, h)))
            (λ _. commit_read-After m c found known _ (
              settle_read-IfStands m c found known _ refl (set_read_seq-IsAt conv user _ db.members)
                (set_read_seq-member_of conv user _ db.members ∙ ap is_some found)))

      go :
          (o : Option MemberRow)
          → member_of conv user db.members ≡ o
          → After (read_as conv user n fails o db)
      go none found = λ r h. absurd (ground (arith, h))
      go (some m) found = inner m found (conversation_of conv db.conversations) refl

  -- After a receipt that was given, the same receipt or an older one that asks for at least 1
  -- answers with the same position as not advanced, and changes no table.
  pub mark_read-settles :
      (fails : Bool) (r : ReadReceipt)
      → (mark_read conv user n fails db).0 ≡ received r
      → 1 ≤ n'
      → mark_read conv user n' false (mark_read conv user n fails db).1 ≡ (
        received (record {
          conversation_id = conv;
          user_id = user;
          up_to_seq = r.up_to_seq;
          advanced = false;
        }),
        (mark_read conv user n fails db).1,
      )
  unfolding After
  mark_read-settles fails r h some_seq =
      read_standing conv user r.up_to_seq n' (mark_read conv user n fails db).1
        (mark_read-After fails r h) some_seq
