-- ===== src/Store/Fanout/Named.antt =====
-- internal/store/fanout.go: whom Members, MessageForFanout and DeadDevices name.
use catenary.Prelude.{
  ℕ, ◌∙◌, if◌then◌else◌, Option-cases, ◌≡◌, refl, Bool, true, false, ◌&&◌, none, some, List, [],
  ◌∷◌, ◌==◌, has, keep, Bool-cases, inl, inr, sym, ap, ==→eq, sort_by-has, is_some, map, arith,
}
use mathlib.Core.Path.{subst}
use catenary.Store.Tables.{Uuid, Db, DeviceRow, UserRow, user_of, device_of}
use catenary.Store.Sync.{ConversationView, view}
use catenary.Store.Log.{MemberRow, LogDb, member_of, MessageRow, ConversationRow, conversation_of}
use catenary.Store.Accounts.{on_revoked}
use catenary.Store.Fanout.{
  MemberRead, as_member, FanoutRead, message_for_fanout, fanout_of, member_reads,
  conversation_rows_for_members, by_seq, rows_of, read_members, is_dead, read_dead_devices,
}

keep-member_of :
    (c u : Uuid) (ms : List MemberRow)
    → has u
        (map (λ (m : MemberRow). m.user_id) (keep (λ (m : MemberRow). m.conversation_id == c) ms))
      ≡ is_some (member_of c u ms)
unfolding member_of
keep-member_of c u [] = refl
keep-member_of c u (m ∷ ms) = ground (arith, keep-member_of c u ms)

-- The members that are read of a conversation are exactly the users with a membership there.
pub read_members-has :
    (c u : Uuid) (db : LogDb) → has u (read_members c db) ≡ is_some (member_of c u db.members)
unfolding read_members rows_of
read_members-has c u db = ground (
  arith,
  sort_by-has (λ (m : MemberRow). m.user_id) (λ (m : MemberRow). m.user_id) u
      (keep (λ (m : MemberRow). m.conversation_id == c) db.members),
  keep-member_of c u db.members,
)

-- The account of a device has a row.
abbrev pub has_owner : Uuid → Db → Bool
has_owner d db = elim (device_of d db.devices) [
  | none ↦ false
  | some row ↦ is_some (user_of row.user_id db.users)
]

module _ (d : Uuid) (asked : List Uuid) (users : List UserRow) where
  keep-revoked :
      (ds : List DeviceRow)
      → has d asked ≡ true
      → elim (device_of d ds) [ none ↦ false | some row ↦ is_some (user_of row.user_id users) ]
        ≡ true
      → on_revoked (some d) ds ≡ true
      → has d (
          map
            (λ (r : DeviceRow). r.id)
            (keep (λ (r : DeviceRow). has r.id asked && is_dead users r) ds))
        ≡ true
  unfolding is_dead on_revoked device_of
  keep-revoked [] a o v = ground (arith, o)
  keep-revoked (x ∷ ds) a o v = elim (Bool-cases (x.id == d)) [
    | inl e ↦ ground (arith, e, a, o, v, sym (ap (λ i. has i asked) (==→eq x.id d e)))
    | inr e ↦ ground (arith, e, o, v, keep-revoked ds a)
  ]

-- A device with a row that is revoked is among the dead of those that are asked about.
pub read_dead_devices-has :
    (d : Uuid) (asked : List Uuid) (db : Db)
    → has d asked ≡ true
    → has_owner d db ≡ true
    → on_revoked (some d) db.devices ≡ true
    → has d (read_dead_devices asked db) ≡ true
unfolding read_dead_devices
read_dead_devices-has d asked db a o v = ground (
  arith,
  sort_by-has (λ (r : DeviceRow). r.id) (λ (r : DeviceRow). r.id) d
      (keep (λ (r : DeviceRow). has r.id asked && is_dead db.users r) db.devices),
  keep-revoked d asked db.users db.devices a o v,
)

-- What by_seq finds is what it looked for.
by_seq-found :
    (c n : ℕ) (ms : List MessageRow) (m : MessageRow)
    → by_seq c n ms ≡ some m
    → (m.conversation_id ≡ c) × (m.seq ≡ n)
unfolding by_seq
by_seq-found c n [] m h = absurd (ground (arith, h))
by_seq-found c n (x ∷ ms) m h = elim (Bool-cases (x.conversation_id == c && x.seq == n)) [
  | inl this ↦ (ground (arith, h, this), ground (arith, h, this))
  | inr other ↦ by_seq-found c n ms m (ground (arith, h, other))
]

member_reads-has :
    (c u : Uuid) (ms : List MemberRow)
    → has u (map (λ (m : MemberRead). m.user_id) (map as_member ms))
      ≡ has u (map (λ (m : MemberRow). m.user_id) ms)
member_reads-has c u [] = refl
member_reads-has c u (m ∷ ms) = ground (arith, member_reads-has c u ms)

module _ (c u : Uuid) (db : LogDb) where
  views-has :
      (row : ConversationRow) (ms : List MemberRow)
      → has u (
          map
            (λ (x : Uuid × ConversationView). x.0)
            (map (λ (cm : MemberRow). (cm.user_id, view db cm row)) ms))
        ≡ has u (map (λ (m : MemberRow). m.user_id) ms)
  views-has row [] = refl
  views-has row (m ∷ ms) = ground (arith, views-has row ms)

  rows_of-has :
      has u (map (λ (m : MemberRow). m.user_id) (rows_of c db)) ≡ is_some (member_of c u db.members)
  unfolding rows_of
  rows_of-has =
      sort_by-has (λ (m : MemberRow). m.user_id) (λ (m : MemberRow). m.user_id) u
        (keep (λ (m : MemberRow). m.conversation_id == c) db.members)
      ∙ keep-member_of c u db.members

  -- Whom a fan-out introduces the conversation to.
  introduced : (b : Bool) → List Uuid
  introduced b =
      map (λ (x : Uuid × ConversationView). x.0)
        (if b then conversation_rows_for_members c db else [])

  introduced-has :
      (b : Bool)
      → is_some (conversation_of c db.conversations) ≡ true
      → has u (introduced b) ≡ (b && is_some (member_of c u db.members))
  unfolding introduced conversation_rows_for_members
  introduced-has false there = refl
  introduced-has true there = elim (Option-cases (conversation_of c db.conversations)) [
    | inl n ↦ absurd (ground (arith, n, there))
    | inr (row, e) ↦ ground (arith, e, views-has row (rows_of c db), rows_of-has)
  ]

-- What the fan-out of a message reads names as its members exactly the users with a membership of
-- the conversation, and introduces the conversation to exactly those if the message is its first,
-- and to nobody if it is not. The conversation has a row.
pub message_for_fanout-names :
    (c n u : ℕ) (db : LogDb) (r : FanoutRead)
    → is_some (conversation_of c db.conversations) ≡ true
    → message_for_fanout c n db ≡ some r
    → (has u (map (λ (m : MemberRead). m.user_id) r.members) ≡ is_some (member_of c u db.members))
      × (has u (map (λ (x : Uuid × ConversationView). x.0) r.conversations)
          ≡ (n == 1 && is_some (member_of c u db.members)))
unfolding message_for_fanout fanout_of member_reads introduced
message_for_fanout-names c n u db r there h = elim (Option-cases (by_seq c n db.messages)) [
  | inl none' ↦ absurd (ground (arith, h, none'))
  | inr (m, found) ↦
      let (conv, seq) = by_seq-found c n db.messages m found in
      let is : fanout_of db m ≡ r = ground (arith, h, found) in
      subst
        (λ (x : FanoutRead).
          (has u (map (λ (m : MemberRead). m.user_id) x.members)
            ≡ is_some (member_of c u db.members))
          × (has u (map (λ (x : Uuid × ConversationView). x.0) x.conversations)
              ≡ (n == 1 && is_some (member_of c u db.members))))
        is
        (
          rw conv (member_reads-has c u (rows_of c db) ∙ rows_of-has c u db),
          rw (conv, seq) (introduced-has c u db (n == 1) there),
        )
]
