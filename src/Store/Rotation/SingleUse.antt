-- ===== src/Store/Rotation/SingleUse.antt =====
-- internal/store/refresh.go: how often one refresh token is rotated.
use catenary.Prelude.{
  ◌∙◌, ==→eq, ◌+◌, ◌≤◌, ℕ, ◌≡◌, refl, ap, Bool, true, false, ◌&&◌, Option, none, some, List, [],
  ◌∷◌, ◌++◌, ◌==◌, is_some, if◌then◌else◌, arith,
}
use mathlib.Core.Path.{subst}
use catenary.Store.Tables.{
  Uuid, Token, Hash, Time, RefreshRow, Db, by_hash, by_id, mark_replaced, revoke_family,
}
use catenary.Store.Rotation.Effect.{Effect, keeps, invalidates, rotates, rotate-Effect}
use catenary.Store.Rotation.{
  Request, Answer, rotate_refresh_proposing, is_spendable, rotated_db, new_row, invalidate_family,
  is_rotated,
}

abbrev pub marked : Uuid → Uuid → RefreshRow → RefreshRow
marked i next r = if r.id == i then record r { replaced_by = some next } else r

abbrev pub marked_opt : Uuid → Uuid → Option RefreshRow → Option RefreshRow
marked_opt i next none = none
marked_opt i next (some r) = some (marked i next r)

pub by_hash-mark_replaced :
    (h : Hash) (i next : Uuid) (rs : List RefreshRow)
    → by_hash h (mark_replaced i next rs) ≡ marked_opt i next (by_hash h rs)
unfolding by_hash mark_replaced
by_hash-mark_replaced h i next [] = refl
by_hash-mark_replaced h i next (r ∷ rs) = ground (arith, by_hash-mark_replaced h i next rs)

pub by_id-mark_replaced :
    (j i next : Uuid) (rs : List RefreshRow)
    → by_id j (mark_replaced i next rs) ≡ marked_opt i next (by_id j rs)
unfolding by_id mark_replaced
by_id-mark_replaced j i next [] = refl
by_id-mark_replaced j i next (r ∷ rs) = ground (arith, by_id-mark_replaced j i next rs)

pub by_hash-append :
    (h : Hash) (rs ss : List RefreshRow)
    → by_hash h (rs ++ ss) ≡ (if is_some (by_hash h rs) then by_hash h rs else by_hash h ss)
unfolding by_hash
by_hash-append h [] ss = refl
by_hash-append h (r ∷ rs) ss = ground (arith, by_hash-append h rs ss)

pub by_id-append :
    (i : Uuid) (rs ss : List RefreshRow)
    → by_id i (rs ++ ss) ≡ (if is_some (by_id i rs) then by_id i rs else by_id i ss)
unfolding by_id
by_id-append h [] ss = refl
by_id-append h (r ∷ rs) ss = ground (arith, by_id-append h rs ss)

abbrev pub replaced : Option RefreshRow → Bool
replaced none = false
replaced (some r) = is_some r.replaced_by

-- The token with this hash is stored and has been replaced.
abbrev pub is_spent : Hash → Db → Bool
is_spent h db = replaced (by_hash h db.refresh_tokens)

pub by_hash-revoke_family :
    (h : Hash) (f : Uuid) (now : Time) (rs : List RefreshRow)
    → replaced (by_hash h (revoke_family f now rs)) ≡ replaced (by_hash h rs)
unfolding by_hash revoke_family
by_hash-revoke_family h f now [] = refl
by_hash-revoke_family h f now (r ∷ rs) = ground (arith, by_hash-revoke_family h f now rs)

pub invalidate_family-is_spent :
    (h : Hash) (q : Request) (r : RefreshRow) (db : Db)
    → is_spent h (invalidate_family q r db) ≡ is_spent h db
unfolding invalidate_family
invalidate_family-is_spent h q r db =
    ground (arith, by_hash-revoke_family h r.family_id q.db_now db.refresh_tokens)

pub replaced-marked :
    (i next : Uuid) (o : Option RefreshRow)
    → replaced o ≡ true
    → replaced (marked_opt i next o) ≡ true
replaced-marked i next none s = s
replaced-marked i next (some r) s = ground arith

-- A token that one request spends, or that was spent before it, is spent after it.
module _ (hash : Token → Hash) (q : Request) (db : Db) where
  appended-replaced :
      (h : Hash) (row : RefreshRow) (rs : List RefreshRow)
      → replaced (by_hash h rs) ≡ true
      → replaced (by_hash h (rs ++ row ∷ [])) ≡ true
  unfolding by_hash
  appended-replaced h row rs s = ground (arith, by_hash-append h rs (row ∷ []))

  pub Effect-is_spent :
      (h : Hash) {o : Answer × Db}
      → Effect hash q db o
      → is_spent h db ≡ true
      → is_spent h o.1 ≡ true
  unfolding rotated_db
  Effect-is_spent h (keeps a na) s = s
  Effect-is_spent h (invalidates r) s = ground (arith, invalidate_family-is_spent h q r db)
  Effect-is_spent h (rotates r user f sp c) s =
      rw (by_hash-mark_replaced h r.id q.new_id (db.refresh_tokens ++ new_row hash q r ∷ [])) (
        replaced-marked r.id q.new_id (by_hash h (db.refresh_tokens ++ new_row hash q r ∷ []))
          (appended-replaced h _ db.refresh_tokens s))

  marked-replaced : (r : RefreshRow) (next : Uuid) → replaced (marked_opt r.id next (some r)) ≡ true
  marked-replaced r next = ground arith

  spendable-replaced : (r : RefreshRow) → is_spendable q r db ≡ true → is_some r.replaced_by ≡ false
  unfolding is_spendable
  spendable-replaced r s = ground arith

  appended_row :
      (h : Hash) (row r : RefreshRow) (rs : List RefreshRow)
      → by_hash h rs ≡ some r
      → by_hash h (rs ++ row ∷ []) ≡ some r
  appended_row h row r rs f = ground (arith, by_hash-append h rs (row ∷ []))

  rotated-is_spent :
      (h : Hash) (r : RefreshRow) (user : Uuid)
      → by_hash h db.refresh_tokens ≡ some r
      → is_spent h (rotated_db hash q r user db) ≡ true
  unfolding rotated_db
  rotated-is_spent h r user f =
      rw
        (
          by_hash-mark_replaced h r.id q.new_id (db.refresh_tokens ++ new_row hash q r ∷ []),
          appended_row h (new_row hash q r) r db.refresh_tokens f,
        )
        (marked-replaced r q.new_id)

  -- The token that a request rotates was not spent before it, and is after it.
  pub Effect-spends :
      {o : Answer × Db}
      → Effect hash q db o
      → is_rotated o.0 ≡ true
      → (is_spent (hash q.presented) db ≡ false) × (is_spent (hash q.presented) o.1 ≡ true)
  Effect-spends (keeps a na) s = absurd (ground arith)
  Effect-spends (invalidates r) s = absurd (ground arith)
  Effect-spends (rotates r user f sp c) s =
      (ap replaced f ∙ spendable-replaced r sp, rotated-is_spent (hash q.presented) r user f)

-- How many of these requests, one after the other, rotate the token with this hash.
abbrev pub rotations : (Token → Hash) → Hash → List Request → Db → ℕ
rotations hash h [] db = 0
rotations hash h (q ∷ qs) db =
    let (a, db') = rotate_refresh_proposing hash q db in
    (if is_rotated a && hash q.presented == h then 1 else 0) + rotations hash h qs db'

spent-rotations :
    (hash : Token → Hash) (h : Hash) (qs : List Request) (db : Db)
    → is_spent h db ≡ true
    → rotations hash h qs db ≡ 0
spent-rotations hash h [] db s = refl
spent-rotations hash h (q ∷ qs) db s =
    let e = rotate-Effect hash q db in
    ground (
      arith,
      Effect-spends hash q db e,
      spent-rotations hash h qs (rotate_refresh_proposing hash q db).1
          (Effect-is_spent hash q db h e s),
    )

spends :
    (hash : Token → Hash) (q : Request) (db : Db) (h : Hash)
    → (is_rotated (rotate_refresh_proposing hash q db).0 && hash q.presented == h) ≡ true
    → is_spent h (rotate_refresh_proposing hash q db).1 ≡ true
spends hash q db h b =
    subst (λ x. is_spent x (rotate_refresh_proposing hash q db).1 ≡ true)
      (==→eq (hash q.presented) h (ground arith))
      (Effect-spends hash q db (rotate-Effect hash q db) (ground arith)).1

one_or_rest : (b : Bool) (n : ℕ) → (b ≡ true → n ≡ 0) → n ≤ 1 → (if b then 1 else 0) + n ≤ 1
one_or_rest true n z l = omega (arith, z refl)
one_or_rest false n z l = omega (arith, l)

-- A refresh token is rotated at most once, whatever requests the server gets, in whatever order,
-- with whatever proposals, clocks and failing statements.
pub rotations_bound :
    (hash : Token → Hash) (h : Hash) (qs : List Request) (db : Db) → rotations hash h qs db ≤ 1
rotations_bound hash h [] db = omega arith
rotations_bound hash h (q ∷ qs) db =
    let db' = (rotate_refresh_proposing hash q db).1 in
    one_or_rest _ (rotations hash h qs db')
      (λ b. spent-rotations hash h qs db' (spends hash q db h b)) (rotations_bound hash h qs db')
