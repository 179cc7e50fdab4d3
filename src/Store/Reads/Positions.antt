-- ===== src/Store/Reads/Positions.antt =====
-- internal/store/readstate.go: where a member's rows stand, and what keeps them there.
use catenary.Prelude.{
  ℕ, ◌≤◌, ◌≡◌, refl, sym, ap, ◌∙◌, inl, inr, true, false, not, ◌&&◌, ◌||◌, some, List, [], ◌∷◌,
  ◌==◌, arith, ltb, is_some, All, Option-cases,
}
use mathlib.Core.Path.{subst}
use catenary.Store.Log.{ConversationRow, MemberRow, LogDb, conversation_of, member_of}
use catenary.Store.Marks.{mark_members}
use catenary.Store.Reads.{
  received, mark_read, read_as, read_in, read_up_to, settle_read, commit_read, set_read_seq,
}

-- Every row of the member stands at this position.
abbrev pub IsAt : ℕ → ℕ → ℕ → List MemberRow → Type 0
IsAt conv user at ms =
    All
      (λ (m : MemberRow).
        (not (m.conversation_id == conv && m.user_id == user) || m.read_seq == at) ≡ true)
      ms

module _ (conv user at : ℕ) where
  pub set_read_seq-IsAt : (ms : List MemberRow) → IsAt conv user at (set_read_seq conv user at ms)
  unfolding set_read_seq
  set_read_seq-IsAt [] = tt
  set_read_seq-IsAt (m ∷ ms) = (ground arith, set_read_seq-IsAt ms)

  pub mark_members-IsAt :
      (ks : List (ℕ × ℕ)) (v : ℕ) (ms : List MemberRow)
      → IsAt conv user at ms
      → IsAt conv user at (mark_members ks v ms)
  unfolding mark_members
  mark_members-IsAt ks v [] h = tt
  mark_members-IsAt ks v (m ∷ ms) h = (ground (arith, h.0), mark_members-IsAt ks v ms h.1)

  member_of-IsAt :
      (ms : List MemberRow) (m : MemberRow)
      → IsAt conv user at ms
      → member_of conv user ms ≡ some m
      → m.read_seq ≡ at
  unfolding member_of
  member_of-IsAt [] m h f = absurd (ground (arith, f))
  member_of-IsAt (x ∷ ms) m h f = ground (arith, h.0, f, member_of-IsAt ms m h.1)

  set_read_seq_again :
      (ms : List MemberRow) → IsAt conv user at ms → set_read_seq conv user at ms ≡ ms
  unfolding set_read_seq
  set_read_seq_again [] h = refl
  set_read_seq_again (m ∷ ms) h = ground (arith, h.0, set_read_seq_again ms h.1)

  settled :
      (db : LogDb)
      → IsAt conv user at db.members
      → commit_read
          (record { conversation_id = conv; user_id = user; up_to_seq = at; advanced = ltb at at })
          db
          (settle_read conv user at at
            (record db { members = set_read_seq conv user at db.members }))
        ≡ (
          received
              (record { conversation_id = conv; user_id = user; up_to_seq = at; advanced = false }),
          db,
        )
  unfolding settle_read commit_read
  settled db h =
      let off : ltb at at ≡ false = ground arith in rw (off, set_read_seq_again db.members h) refl

  settled_from :
      (before after : ℕ) (db : LogDb)
      → IsAt conv user at db.members
      → at ≡ before
      → at ≡ after
      → commit_read
          (record {
            conversation_id = conv;
            user_id = user;
            up_to_seq = after;
            advanced = ltb before after;
          })
          db
          (settle_read conv user before after
            (record db { members = set_read_seq conv user after db.members }))
        ≡ (
          received
              (record { conversation_id = conv; user_id = user; up_to_seq = at; advanced = false }),
          db,
        )
  settled_from before after db h b a =
      let P : ℕ → ℕ → Type 0 = λ x y.
        commit_read
          (record { conversation_id = conv; user_id = user; up_to_seq = y; advanced = ltb x y }) db
          (settle_read conv user x y (record db { members = set_read_seq conv user y db.members }))
        ≡ (
          received
              (record { conversation_id = conv; user_id = user; up_to_seq = at; advanced = false }),
          db,
        ) in
      subst (λ x. P x after) b (subst (λ y. P at y) a (settled db h))

  -- A receipt that cannot advance leaves all as it is.
  read_again :
      (n : ℕ) (db : LogDb) (m : MemberRow) (c : ConversationRow)
      → IsAt conv user at db.members
      → member_of conv user db.members ≡ some m
      → conversation_of conv db.conversations ≡ some c
      → 1 ≤ n
      → read_up_to at n c.last_seq ≡ at
      → mark_read conv user n false db ≡ (
        received
            (record { conversation_id = conv; user_id = user; up_to_seq = at; advanced = false }),
        db,
      )
  unfolding mark_read read_as read_in
  read_again n db m c h member known some_seq stays =
      let here = member_of-IsAt db.members m h member in
      let enough : ltb n 1 ≡ false = ground (arith, some_seq) in
      let stays' = ap (λ x. read_up_to x n c.last_seq) here ∙ stays in
      rw (enough, member, read_as, known, read_in)
        (settled_from m.read_seq (read_up_to m.read_seq n c.last_seq) db h (sym here) (sym stays'))

  -- The row of the member and of the conversation, where the position is one that stays.
  pub record Stands (db : LogDb) (n : ℕ) : Type 0 where
    pub here : IsAt conv user at db.members
    pub member : is_some (member_of conv user db.members) ≡ true
    pub conversation : ConversationRow
    pub known : conversation_of conv db.conversations ≡ some conversation
    pub stays : read_up_to at n conversation.last_seq ≡ at

  pub read_standing :
      (n : ℕ) (db : LogDb)
      → Stands db n
      → 1 ≤ n
      → mark_read conv user n false db ≡ (
        received
            (record { conversation_id = conv; user_id = user; up_to_seq = at; advanced = false }),
        db,
      )
  read_standing n db s some_seq = elim (Option-cases (member_of conv user db.members)) [
    | inl none' ↦ absurd (ground (arith, s.member, none'))
    | inr (m, found) ↦ read_again n db m s.conversation s.here found s.known some_seq s.stays
  ]
