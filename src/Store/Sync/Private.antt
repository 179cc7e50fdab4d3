-- ===== src/Store/Sync/Private.antt =====
-- internal/store/sync.go: what a page may show its reader.
use catenary.Prelude.{
  ℕ, ◌≡◌, Bool, true, List, [], ◌∷◌, arith, is_some, All, has, keep-All, sort_by-All, first, suc,
  first-All, ltb, length, split,
}
use catenary.Prelude.Int.{ℤ}
use catenary.Store.Tables.{Uuid}
use catenary.Store.Log.{MessageRow, LogDb, member_of}
use catenary.Store.Sync.{
  is_visible, scan, cut, assemble, sync, load_reply_sources, conversation_ids, clamp_limit,
}

-- The reader is a member of the message's conversation.
abbrev pub IsReadable : LogDb → Uuid → MessageRow → Type 0
IsReadable db viewer m = is_some (member_of m.conversation_id viewer db.members) ≡ true

scan-IsReadable :
    (viewer : Uuid) (after : ℕ) (db : LogDb) → All (IsReadable db viewer) (scan viewer after db)
unfolding scan is_visible
scan-IsReadable viewer after db =
    sort_by-All (IsReadable db viewer) _ _
      (keep-All (IsReadable db viewer) _ db.messages (λ m h. ground arith))

cut-All :
    (P : MessageRow → Type 0) (limit head : ℕ) (rows : List MessageRow)
    → All P rows
    → All P (cut limit head rows).0
unfolding cut
cut-All P limit head rows ps =
    split (λ (r : List MessageRow × ℕ × Bool). All P r.0)
      (ltb limit (length (first (suc limit) rows)))
      (λ _. first-All P limit _ (first-All P _ rows ps)) (λ _. first-All P _ rows ps)

-- A conversation of some message of the list.
readable_in :
    (db : LogDb) (viewer c : Uuid) (ms : List MessageRow)
    → All (IsReadable db viewer) ms
    → has c (conversation_ids ms) ≡ true
    → is_some (member_of c viewer db.members) ≡ true
readable_in db viewer c [] ps h = ground arith
readable_in db viewer c (m ∷ ms) ps h = ground (arith, readable_in db viewer c ms ps.1)

module _ (viewer : Uuid) (after : ℕ) (limit : ℤ) (db : LogDb) where
  -- A page shows only messages of conversations that its reader is a member of, and so do the
  -- sources that its replies quote.
  pub sync-IsReadable :
      All (IsReadable db viewer) (sync viewer after limit db).messages
      × All (IsReadable db viewer) (sync viewer after limit db).reply_sources
  unfolding sync assemble load_reply_sources
  sync-IsReadable =
      let page =
        cut-All (IsReadable db viewer) (clamp_limit limit) db.log_counter _
          (scan-IsReadable viewer after db) in
      (
        page,
        keep-All (IsReadable db viewer) _ db.messages
            (λ src h. readable_in db viewer src.conversation_id _ page (ground arith)),
      )
