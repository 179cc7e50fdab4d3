-- ===== src/Store/Sync/Page.antt =====
-- internal/store/sync.go: which messages a page has, and where its high water stands.
use catenary.Prelude.{
  ℕ, zero, suc, ◌+◌, ◌≤◌, ◌<◌, ◌≡◌, refl, sym, ◌∙◌, inl, inr, Bool, true, false, List, [], ◌∷◌,
  ◌&&◌, ◌==◌, arith, is_some, keep, exists, exists-keep, exists_mono, ap, sort_by, insert_by, first,
  ltb, leb, length, split, Bool-cases,
}
use catenary.Prelude.Int.{ℤ, pos, negsuc}
use catenary.Store.Tables.{Uuid}
use catenary.Store.Log.{MessageRow, LogDb, member_of}
use catenary.Store.Messages.Numbers.{IsLog, Within}
use catenary.Store.Sync.{
  is_visible, scan, cut, assemble, sync, clamp_limit, last_log_seq, max_sync_limit,
}

Within-weaken :
    (low low' high : ℕ) (ms : List MessageRow)
    → Within low ms high
    → low' ≤ low
    → Within low' ms high
Within-weaken low low' high [] w h = omega arith
Within-weaken low low' high (m ∷ ms) w h = (omega (arith, w.0), w.1)

pub Within-bound : (low high : ℕ) (ms : List MessageRow) → Within low ms high → low ≤ high
Within-bound low high [] w = w
Within-bound low high (m ∷ ms) w = omega (arith, w.0, Within-bound m.log_seq high ms w.1)

keep-Within :
    (p : MessageRow → Bool) (low high : ℕ) (ms : List MessageRow)
    → Within low ms high
    → Within low (keep p ms) high
keep-Within p low high [] w = w
keep-Within p low high (m ∷ ms) w =
    split (λ (k : List MessageRow). Within low k high) (p m)
      (λ _. (w.0, keep-Within p m.log_seq high ms w.1))
      (λ _.
        Within-weaken m.log_seq low high (keep p ms) (keep-Within p m.log_seq high ms w.1)
          (omega (arith, w.0)))

Within-raise :
    (low high more : ℕ) (ms : List MessageRow) → Within low ms high → Within low ms (more + high)
Within-raise low high more [] w = omega (arith, w)
Within-raise low high more (m ∷ ms) w = (w.0, Within-raise m.log_seq high more ms w.1)

keep-Within_above :
    (p : MessageRow → Bool) (after low high : ℕ) (ms : List MessageRow)
    → ((m : MessageRow) → p m ≡ true → after < m.log_seq)
    → Within low ms high
    → Within after (keep p ms) (after + high)
keep-Within_above p after low high [] h w = omega arith
keep-Within_above p after low high (m ∷ ms) h w =
    split (λ (k : List MessageRow). Within after k (after + high)) (p m)
      (λ passes. (
        h m passes,
        Within-raise m.log_seq high after (keep p ms) (keep-Within p m.log_seq high ms w.1),
      ))
      (λ _. keep-Within_above p after m.log_seq high ms h w.1)

-- The kept messages are in order already.
sort_by-Within :
    (low high : ℕ) (ms : List MessageRow)
    → Within low ms high
    → sort_by (λ (m : MessageRow). m.log_seq) ms ≡ ms
unfolding sort_by insert_by
sort_by-Within low high [] w = refl
sort_by-Within low high (m ∷ []) w = refl
sort_by-Within low high (m ∷ n ∷ ms) w =
    rw (sort_by-Within m.log_seq high (n ∷ ms) w.1) (ground (arith, w.1.0))

-- Some row passes, and lies at or below a position.
abbrev found_row : (MessageRow → Bool) → ℕ → List MessageRow → Bool
found_row q n ms = exists (λ (m : MessageRow). q m && leb m.log_seq n) ms

none_below :
    (q : MessageRow → Bool) (n low high : ℕ) (ms : List MessageRow)
    → Within low ms high
    → n ≤ low
    → found_row q n ms ≡ false
none_below q n low high [] w h = refl
none_below q n low high (m ∷ ms) w h =
    ground (arith, w.0, none_below q n m.log_seq high ms w.1 (omega (arith, w.0)))

-- The first so many rows have each of the rows at or below the position of their last.
found_row-first :
    (q : MessageRow → Bool) (n low high : ℕ) (ms : List MessageRow)
    → Within low ms high
    → 0 < n
    → n < length ms
    → found_row q (last_log_seq (first n ms)) ms ≡ true
    → exists q (first n ms) ≡ true
unfolding first last_log_seq
found_row-first q zero low high ms w some_limit more h = absurd (omega arith)
found_row-first q (suc n) low high [] w some_limit more h = absurd (omega arith)
found_row-first q (suc zero) low high (m ∷ ms) w some_limit more h =
    ground (arith, none_below q m.log_seq m.log_seq high ms w.1 (omega arith))
found_row-first q (suc (suc n)) low high (m ∷ []) w some_limit more h = absurd (omega arith)
found_row-first q (suc (suc n)) low high (m ∷ k ∷ ms) w some_limit more h =
    ground
      (arith, found_row-first q (suc n) m.log_seq high (k ∷ ms) w.1 (omega arith) (omega arith))

-- The last of the first so many rows lies between the bounds of all.
last_log_seq-first :
    (n low high : ℕ) (ms : List MessageRow)
    → Within low ms high
    → 0 < n
    → n < length ms
    → (low < last_log_seq (first n ms)) × (last_log_seq (first n ms) ≤ high)
unfolding first last_log_seq
last_log_seq-first zero low high ms w some_limit more = absurd (omega arith)
last_log_seq-first (suc n) low high [] w some_limit more = absurd (omega arith)
last_log_seq-first (suc zero) low high (m ∷ ms) w some_limit more =
    (w.0, Within-bound m.log_seq high ms w.1)
last_log_seq-first (suc (suc n)) low high (m ∷ []) w some_limit more = absurd (omega arith)
last_log_seq-first (suc (suc n)) low high (m ∷ k ∷ ms) w some_limit more =
    let (above, below) =
      last_log_seq-first (suc n) m.log_seq high (k ∷ ms) w.1 (omega arith) (omega arith) in
    (omega (arith, w.0, above), below)

-- The two looks at the limit, on the rows themselves.
pub length-first :
    (n : ℕ) (ms : List MessageRow) → ltb n (length (first (suc n) ms)) ≡ ltb n (length ms)
unfolding first
length-first zero [] = refl
length-first zero (m ∷ ms) = ground arith
length-first (suc n) [] = refl
length-first (suc n) (m ∷ ms) = ground (arith, length-first n ms)

first-first : (n : ℕ) (ms : List MessageRow) → first n (first (suc n) ms) ≡ first n ms
unfolding first
first-first zero ms = refl
first-first (suc n) [] = refl
first-first (suc n) (m ∷ ms) = ap (λ t. m ∷ t) (first-first n ms)

first_all : (n : ℕ) (ms : List MessageRow) → ltb n (length ms) ≡ false → first (suc n) ms ≡ ms
unfolding first
first_all n [] h = refl
first_all zero (m ∷ ms) h = absurd (ground arith)
first_all (suc n) (m ∷ ms) h = ap (λ t. m ∷ t) (first_all n ms (ground arith))

-- What a cut of rows in order is.
record IsCut (q : MessageRow → Bool) (after high head : ℕ) (rows : List MessageRow)
    (r : List MessageRow × ℕ × Bool) : Type 0 where
  brings : found_row q r.1 rows ≡ true → exists q r.0 ≡ true
  moves : r.2 ≡ true → (after < r.1) × (r.1 ≤ high)
  reaches : r.2 ≡ false → r.1 ≡ head

found_row-exists :
    (q : MessageRow → Bool) (n : ℕ) (ms : List MessageRow)
    → found_row q n ms ≡ true
    → exists q ms ≡ true
found_row-exists q n ms h = exists_mono _ q ms (λ m e. ground arith) h

cut-IsCut :
    (q : MessageRow → Bool) (limit after high head : ℕ) (rows : List MessageRow)
    → Within after rows high
    → 0 < limit
    → IsCut q after high head rows (cut limit head rows)
unfolding cut
cut-IsCut q limit after high head rows w some_limit =
    split (IsCut q after high head rows) (ltb limit (length (first (suc limit) rows)))
      (λ more. rw (first-first limit rows) (record {
        brings = found_row-first q limit after high rows w some_limit (lt more);
        moves = λ _. last_log_seq-first limit after high rows w some_limit (lt more);
        reaches = λ h. absurd (ground arith);
      }))
      (λ last. rw (first_all limit rows (sym (length-first limit rows) ∙ last)) (record {
        brings = found_row-exists q head rows;
        moves = λ h. absurd (ground arith);
        reaches = λ _. refl;
      }))
  where
    lt : ltb limit (length (first (suc limit) rows)) ≡ true → limit < length rows
    lt more = ground (arith, length-first limit rows)

-- The row of a log entry that the reader may see.
abbrev pub is_row : Uuid → LogDb → ℕ × ℕ → MessageRow → Bool
is_row viewer db (id, log_seq) m =
    m.id == id && m.log_seq == log_seq && is_some (member_of m.conversation_id viewer db.members)

-- The tables have a message of this id and position that the reader may see.
abbrev pub shows : Uuid → LogDb → ℕ × ℕ → Bool
shows viewer db e = exists (is_row viewer db e) db.messages

pub clamp_limit-bounds :
    (limit : ℤ) → (0 < clamp_limit limit) × (clamp_limit limit ≤ max_sync_limit)
unfolding clamp_limit
clamp_limit-bounds (negsuc n) = (omega arith, omega arith)
clamp_limit-bounds (pos n) = ground arith

module _ (viewer : Uuid) (after : ℕ) (limit : ℤ) (db : LogDb) (v : IsLog db) where
  scan-eq : scan viewer after db ≡ keep (is_visible viewer after db.log_counter db) db.messages
  unfolding scan
  scan-eq = sort_by-Within 0 db.log_counter _ (
      keep-Within (is_visible viewer after db.log_counter db) 0 db.log_counter db.messages
        v.ordered)

  scan-Within : Within 0 (scan viewer after db) db.log_counter
  scan-Within = rw scan-eq (keep-Within _ 0 db.log_counter db.messages v.ordered)

  rows-Within : Within after (scan viewer after db) (after + db.log_counter)
  unfolding is_visible
  rows-Within =
      rw scan-eq
        (keep-Within_above _ after 0 db.log_counter db.messages (λ m h. ground arith) v.ordered)

  cut_here :
      (q : MessageRow → Bool)
      → IsCut q 0 db.log_counter db.log_counter
          (scan viewer after db)
          (cut (clamp_limit limit) db.log_counter (scan viewer after db))
  cut_here q =
      cut-IsCut q (clamp_limit limit) 0 db.log_counter db.log_counter (scan viewer after db)
        scan-Within (clamp_limit-bounds limit).0

  high_water-le : (sync viewer after limit db).high_water ≤ db.log_counter
  unfolding sync assemble
  high_water-le = elim (Bool-cases (sync viewer after limit db).has_more) [
    | inl more ↦ ((cut_here (λ m. true)).moves more).1
    | inr last ↦ omega (arith, (cut_here (λ m. true)).reaches last)
  ]

  -- X
  pub sync-brings :
      (e : ℕ × ℕ)
      → shows viewer db e ≡ true
      → after < e.1
      → e.1 ≤ (sync viewer after limit db).high_water
      → exists (λ (m : MessageRow). m.id == e.0) (sync viewer after limit db).messages ≡ true
  unfolding sync assemble is_visible
  sync-brings e there above below =
      let q = is_row viewer db e in
      let le = high_water-le in
      let kept =
        exists-keep q (is_visible viewer after db.log_counter db) db.messages (λ m h. ground arith)
          there in
      let here =
        exists_mono q (λ m. q m && leb m.log_seq (sync viewer after limit db).high_water)
          (scan viewer after db) (λ m h. ground arith) (rw scan-eq kept) in
      exists_mono q _ _ (λ m h. ground arith) ((cut_here q).brings here)

  -- X
  pub sync-moves :
      ((sync viewer after limit db).has_more ≡ true
        → (after < (sync viewer after limit db).high_water)
          × ((sync viewer after limit db).high_water ≤ db.log_counter))
      × ((sync viewer after limit db).has_more ≡ false
          → (sync viewer after limit db).high_water ≡ db.log_counter)
  unfolding sync assemble
  sync-moves =
      let moved =
        cut-IsCut (λ m. true) (clamp_limit limit) after (after + db.log_counter) db.log_counter
          (scan viewer after db) rows-Within (clamp_limit-bounds limit).0 in
      (
        λ more. ((moved.moves more).0, ((cut_here (λ m. true)).moves more).1),
        (cut_here (λ m. true)).reaches,
      )
