-- ===== src/Store/Rotation/Effect.antt =====
-- internal/store/refresh.go: what one request does to the tables.
use catenary.Prelude.{
  ◌≡◌, refl, true, false, ◌&&◌, not, Option, none, some, ◌==◌, arith, split, ◌||◌,
}
use catenary.Store.Tables.{
  Uuid, Token, Hash, RefreshRow, DeviceRow, Db, by_hash, by_id, device_of, empty,
}
use catenary.Store.Rotation.{
  Request, Answer, rotated, unauthorized, failed, retry_fresh_proposal, retry_present_proposal,
  spend, rotate_row, rotate_refresh_proposing, is_spendable, found, rotated_db, collides,
  route_collision, issued, refusal_outcome, invalidate_family, refusal_of, replaced_outcome,
  spent_token_outcome, in_grace, is_rotated, answer_or_refuse, route_of, collision_answer,
  on_device,
}

module _ (hash : Token → Hash) (q : Request) (db : Db) where
  pub data Effect : Answer × Db → Type 0 where
    keeps : (a : Answer) → is_rotated a ≡ false → Effect (a, db)
    invalidates : (r : RefreshRow) → Effect (unauthorized, invalidate_family q r db)
    rotates :
        (r : RefreshRow) (user : Uuid)
        → by_hash (hash q.presented) db.refresh_tokens ≡ some r
        → is_spendable q r db ≡ true
        → collides hash q db ≡ false
        → Effect (rotated (issued hash q r user), rotated_db hash q r user db)

  -- A refusal's effect.
  Refusal : Db → Type 0
  Refusal d = Effect (unauthorized, d)

  spent-Effect : (r : RefreshRow) (o : Option RefreshRow) → Refusal (spent_token_outcome q r o db)
  unfolding Refusal spent_token_outcome
  spent-Effect r none = invalidates r
  spent-Effect r (some s) =
      split Refusal (in_grace s q.db_now) (λ _. keeps unauthorized refl) (λ _. invalidates r)

  replaced-Effect : (r : RefreshRow) (o : Option Uuid) → Refusal (replaced_outcome q r o db)
  unfolding Refusal replaced_outcome
  replaced-Effect r none = keeps unauthorized refl
  replaced-Effect r (some next) = spent-Effect r (by_id next db.refresh_tokens)

  refusal_of-Effect : (o : Option RefreshRow) → Refusal (refusal_of q o db)
  unfolding Refusal refusal_of
  refusal_of-Effect none = keeps unauthorized refl
  refusal_of-Effect (some r) = replaced-Effect r r.replaced_by

  refusal_outcome-Refusal : (i : Uuid) → Refusal (refusal_outcome q i db)
  unfolding Refusal refusal_outcome
  refusal_outcome-Refusal i =
      split Refusal q.trouble.cause_fails (λ _. keeps unauthorized refl)
        (λ _. refusal_of-Effect (by_id i db.refresh_tokens))

  answer-Effect :
      (id : Uuid) (o : Option Uuid) (c : Option RefreshRow)
      → Effect (answer_or_refuse q id (collision_answer q o c) db)
  unfolding Refusal answer_or_refuse collision_answer
  answer-Effect id none c = keeps retry_fresh_proposal refl
  answer-Effect id (some next) none = refusal_outcome-Refusal id
  answer-Effect id (some next) (some s) =
      split (λ o. Effect (answer_or_refuse q id o db)) (next == s.id && in_grace s q.db_now)
        (λ _. keeps retry_present_proposal refl) (λ _. refusal_outcome-Refusal id)

  collision-Effect :
      (id : Uuid) (o : Option RefreshRow) (c : Option RefreshRow)
      → Effect (answer_or_refuse q id (route_of q o c) db)
  unfolding Refusal answer_or_refuse route_of
  collision-Effect id none c = refusal_outcome-Refusal id
  collision-Effect id (some r) c = answer-Effect id r.replaced_by c

  route-Effect : (r : RefreshRow) → Effect (route_collision hash q r db)
  unfolding Refusal route_collision answer_or_refuse
  route-Effect r =
      split (λ o. Effect (answer_or_refuse q r.id o db)) q.trouble.route_fails
        (λ _. refusal_outcome-Refusal r.id)
        (λ _.
          collision-Effect r.id (by_id r.id db.refresh_tokens)
            (by_hash (hash q.proposed) db.refresh_tokens))

  spend-Effect :
      (r : RefreshRow) (user : Uuid)
      → by_hash (hash q.presented) db.refresh_tokens ≡ some r
      → collides hash q db ≡ false
      → Effect (spend hash q r user db)
  unfolding Refusal spend
  spend-Effect r user f c =
      split Effect q.trouble.mark_fails (λ _. keeps failed refl)
        (λ _.
          split Effect (not (is_spendable q r db)) (λ _. refusal_outcome-Refusal r.id)
            (λ s.
              split Effect (q.trouble.access_fails || q.trouble.commit_fails)
                (λ _. keeps failed refl) (λ _. rotates r user f (ground arith) c)))

  row-Effect :
      (r : RefreshRow) (user : Uuid)
      → by_hash (hash q.presented) db.refresh_tokens ≡ some r
      → Effect (rotate_row hash q r user db)
  unfolding rotate_row
  row-Effect r user f =
      split Effect q.trouble.insert_fails (λ _. keeps failed refl)
        (λ _.
          split Effect (collides hash q db)
            (λ _. split Effect (q.proposed == empty) (λ _. keeps failed refl) (λ _. route-Effect r))
            (λ c. spend-Effect r user f c))

  device-Effect :
      (r : RefreshRow) (o : Option DeviceRow)
      → by_hash (hash q.presented) db.refresh_tokens ≡ some r
      → Effect (on_device hash q r o db)
  unfolding on_device
  device-Effect r none f = keeps unauthorized refl
  device-Effect r (some d) f = row-Effect r d.user_id f

  found-Effect :
      (o : Option RefreshRow)
      → by_hash (hash q.presented) db.refresh_tokens ≡ o
      → Effect (found hash q o db)
  unfolding found
  found-Effect none f = keeps unauthorized refl
  found-Effect (some r) f = device-Effect r (device_of r.device_id db.devices) f

  -- Every request has one of the three effects.
  pub rotate-Effect : Effect (rotate_refresh_proposing hash q db)
  unfolding rotate_refresh_proposing
  rotate-Effect =
      split Effect (q.presented == empty) (λ _. keeps unauthorized refl)
        (λ _.
          split Effect (not (q.proposed == empty) && q.proposed == q.presented)
            (λ _. keeps retry_fresh_proposal refl)
            (λ _.
              split Effect q.trouble.lookup_fails (λ _. keeps failed refl)
                (λ _. found-Effect (by_hash (hash q.presented) db.refresh_tokens) refl)))
