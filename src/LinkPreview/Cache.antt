-- ===== src/LinkPreview/Cache.antt =====
-- internal/linkpreview/cache.go: a bounded cache with a lifetime per entry. A key is a number, with 0 for
-- the empty string; the map is an association list, whose order stands for the order of a range.
pub mod Bound
use catenary.Prelude.{
  ℕ, ◌+◌, Bool, true, false, not, ◌&&◌, ◌||◌, Option, none, some, List, [], ◌∷◌, ◌==◌, ltb, leb,
  length, member, lookup, insert, delete, if◌then◌else◌,
}

pub record CacheEntry {ℓ} (V : Type ℓ) : Type ℓ where
  pub v : V
  pub expires : ℕ

pub record Cache {ℓ} (V : Type ℓ) : Type ℓ where
  pub max : ℕ
  pub m : List (ℕ × CacheEntry V)

module _ {ℓ} {V : Type ℓ} where
  unfoldable pub got : ℕ → ℕ → Option (CacheEntry V) → Cache V → Option V × Cache V
  got key now none c = (none, c)
  got key now (some e) c =
      if leb e.expires now then (none, record c { m = delete key c.m }) else (some e.v, c)

  -- Get: an entry that has expired is deleted.
  unfoldable pub get : ℕ → ℕ → Cache V → Option V × Cache V
  unfolding got
  get key now c = got key now (lookup key c.m) c

  -- The range of Put: expired entries are deleted, and the live one that expires first is found.
  unfoldable pub sweep : ℕ → List (ℕ × CacheEntry V) → ℕ → ℕ → List (ℕ × CacheEntry V) × ℕ
  sweep now [] oldest at = ([], oldest)
  sweep now ((k, e) ∷ m) oldest at =
      let skipped = sweep now m oldest at in
      let first = sweep now m k e.expires in
      if leb e.expires now
      then skipped
      else if oldest == 0 || ltb e.expires at
      then ((k, e) ∷ first.0, first.1)
      else ((k, e) ∷ skipped.0, skipped.1)

  -- After the range: still full, so the first to expire goes.
  unfoldable pub evict : ℕ → List (ℕ × CacheEntry V) × ℕ → List (ℕ × CacheEntry V)
  evict max (m, oldest) = if leb max (length m) && not (oldest == 0) then delete oldest m else m

  unfoldable pub make_room : ℕ → ℕ → Cache V → List (ℕ × CacheEntry V)
  unfolding sweep evict
  make_room key now c =
      if not (member key c.m) && leb c.max (length c.m)
      then evict c.max (sweep now c.m 0 0)
      else c.m

  -- Put.
  unfoldable pub put : ℕ → V → ℕ → ℕ → Cache V → Cache V
  unfolding make_room
  put key v ttl now c = record c {
    m = insert key (record { v = v; expires = now + ttl }) (make_room key now c);
  }
