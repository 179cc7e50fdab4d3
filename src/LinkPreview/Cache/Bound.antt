-- ===== src/LinkPreview/Cache/Bound.antt =====
-- internal/linkpreview/cache.go: the bound, and the lifetime of an entry.
use catenary.Prelude.{
  ℕ, suc, ◌+◌, ◌≤◌, ◌<◌, ◌≡◌, ◌≢◌, refl, ap, ==_refl, true, false, ◌||◌, none, some, List, [], ◌∷◌,
  ◌∙◌, split, ◌==◌, leb, length, insert, delete, lookup, lookup-insert, lookup-delete, member-has,
  inl, inr, ◌⊎◌, All, Option, Bool-cases, ==→eq, has, keys, if◌then◌else◌, arith,
}
use catenary.LinkPreview.Cache.{CacheEntry, Cache, got, get, sweep, evict, make_room, put}

-- No entry under the empty string.
abbrev pub IsKeyed {ℓ} : {V : Type ℓ} → List (ℕ × CacheEntry V) → Type 0
IsKeyed m = has 0 (keys m) ≡ false

module _ {ℓ} {V : Type ℓ} where
  length-insert_new :
      (k : ℕ) (e : CacheEntry V) (m : List (ℕ × CacheEntry V))
      → length (insert k e m) ≡ (if has k (keys m) then length m else suc (length m))
  unfolding insert
  length-insert_new k e [] = refl
  length-insert_new k e ((j, x) ∷ m) = ground (arith, length-insert_new k e m)

  length-delete : (k : ℕ) (m : List (ℕ × CacheEntry V)) → length (delete k m) ≤ length m
  unfolding delete
  length-delete k [] = omega arith
  length-delete k ((j, x) ∷ m) = ground (arith, length-delete k m)

  length-delete_held :
      (k : ℕ) (m : List (ℕ × CacheEntry V)) → has k (keys m) ≡ true → length (delete k m) < length m
  unfolding delete
  length-delete_held k [] h = absurd (ground arith)
  length-delete_held k ((j, x) ∷ m) h = ground (arith, length-delete_held k m, length-delete k m)

  delete-has :
      (j k : ℕ) (m : List (ℕ × CacheEntry V))
      → has j (keys m) ≡ false
      → has j (keys (delete k m)) ≡ false
  unfolding delete
  delete-has j k [] h = refl
  delete-has j k ((i, x) ∷ m) h = ground (arith, delete-has j k m)

  -- A sweep only takes away, and the one that it names is kept, or was named before; it names none only
  -- if nothing is kept.
  length-sweep :
      (now : ℕ) (m : List (ℕ × CacheEntry V)) (o at : ℕ) → length (sweep now m o at).0 ≤ length m
  unfolding sweep
  length-sweep now [] o at = omega arith
  length-sweep now ((k, e) ∷ m) o at =
      ground (arith, length-sweep now m o at, length-sweep now m k e.expires)

  sweep-has :
      (j now : ℕ) (m : List (ℕ × CacheEntry V)) (o at : ℕ)
      → has j (keys m) ≡ false
      → has j (keys (sweep now m o at).0) ≡ false
  unfolding sweep
  sweep-has j now [] o at h = refl
  sweep-has j now ((k, e) ∷ m) o at h =
      ground (arith, sweep-has j now m o at, sweep-has j now m k e.expires)

  IsKeyed-tail :
      (k : ℕ) (e : CacheEntry V) (m : List (ℕ × CacheEntry V)) → IsKeyed ((k, e) ∷ m) → IsKeyed m
  IsKeyed-tail k e m h = ground arith

  sweep-named :
      (now : ℕ) (m : List (ℕ × CacheEntry V)) (o at : ℕ)
      → ((sweep now m o at).1 == o || has (sweep now m o at).1 (keys (sweep now m o at).0)) ≡ true
  unfolding sweep
  sweep-named now [] o at = ground (arith, ==_refl o)
  sweep-named now ((k, e) ∷ m) o at =
      ground (arith, sweep-named now m o at, sweep-named now m k e.expires)

  sweep-kept :
      (now : ℕ) (m : List (ℕ × CacheEntry V)) (o at : ℕ)
      → IsKeyed m
      → (sweep now m o at).1 ≡ 0
      → ((sweep now m o at).0 ≡ []) × (o ≡ 0)
  unfolding sweep
  sweep-kept now [] o at k e = (refl, e)
  sweep-kept now ((k, x) ∷ m) o at h e =
      let t = IsKeyed-tail k x m h in
      ground (arith, h, sweep-kept now m o at t, sweep-kept now m k x.expires t)

  sweep-empty :
      (now : ℕ) (m : List (ℕ × CacheEntry V))
      → IsKeyed m
      → (sweep now m 0 0).1 ≡ 0
      → length (sweep now m 0 0).0 ≡ 0
  sweep-empty now m k e = ap length (sweep-kept now m 0 0 k e).0

  -- A full cache has room after the sweep and the eviction.
  evict-room :
      (max now : ℕ) (m : List (ℕ × CacheEntry V))
      → 0 < max
      → IsKeyed m
      → length m ≤ max
      → length (evict max (sweep now m 0 0)) < max
  unfolding evict
  evict-room max now m p k l =
      let r = sweep now m 0 0 in
      ground (
        arith,
        length-sweep now m 0 0,
        sweep-empty now m k,
        sweep-named now m 0 0,
        length-delete_held r.1 r.0,
      )

  evict-IsKeyed :
      (max now : ℕ) (m : List (ℕ × CacheEntry V))
      → IsKeyed m
      → IsKeyed (evict max (sweep now m 0 0))
  unfolding evict
  evict-IsKeyed max now m k =
      let r = sweep now m 0 0 in ground (arith, sweep-has 0 now m 0 0 k, delete-has 0 r.1 r.0)

  keys-insert-has :
      (j k : ℕ) (e : CacheEntry V) (m : List (ℕ × CacheEntry V))
      → has j (keys (insert k e m)) ≡ (if k == j then true else has j (keys m))
  unfolding insert
  keys-insert-has j k e [] = refl
  keys-insert-has j k e ((i, x) ∷ m) = ground (arith, keys-insert-has j k e m)

  make_room-length :
      (key now : ℕ) (e : CacheEntry V) (c : Cache V)
      → 0 < c.max
      → IsKeyed c.m
      → length c.m ≤ c.max
      → length (insert key e (make_room key now c)) ≤ c.max
  unfolding make_room
  make_room-length key now e c p k l = ground (
    arith,
    member-has key c.m,
    length-insert_new key e c.m,
    length-insert_new key e (evict c.max (sweep now c.m 0 0)),
    evict-room c.max now c.m p k l,
  )

  make_room-IsKeyed : (key now : ℕ) (c : Cache V) → IsKeyed c.m → IsKeyed (make_room key now c)
  unfolding make_room
  make_room-IsKeyed key now c k = ground (arith, k, evict-IsKeyed c.max now c.m k)

  -- Not more entries than the bound, and none under the empty string.
  abbrev pub IsBounded : Cache V → Type 0
  IsBounded c = (length c.m ≤ c.max) × IsKeyed c.m

  -- A put keeps the cache within its bound, if the bound is not zero, the key is not the empty
  -- string and no entry stands under it.
  pub put-IsBounded :
      (key : ℕ) (v : V) (ttl now : ℕ) (c : Cache V)
      → 0 < c.max
      → key ≢ 0
      → IsBounded c
      → IsBounded (put key v ttl now c)
  unfolding put
  put-IsBounded key v ttl now c p nz (l, k) = (
    make_room-length key now (record { v = v; expires = now + ttl }) c p k l,
    ground (
      arith,
      keys-insert-has 0 key (record { v = v; expires = now + ttl }) (make_room key now c),
      make_room-IsKeyed key now c k,
    ),
  )

  -- Gets, each of a key at a time.
  abbrev pub gets : List (ℕ × ℕ) → Cache V → Cache V
  gets [] c = c
  gets ((key, now) ∷ rest) c = gets rest (get key now c).1

  -- Under the key is the value with its expiry, or nothing once that is over.
  Keeps : ℕ → V → ℕ → ℕ → Cache V → Type ℓ
  Keeps key v at later c =
      (lookup key c.m ≡ some (record { v = v; expires = at }))
      ⊎ ((lookup key c.m ≡ none) × (at ≤ later))

  -- A get that finds an entry: it goes if it has expired, which is over for good.
  found-Keeps :
      (key k : ℕ) (v : V) (at now later : ℕ) (e : CacheEntry V) (c : Cache V)
      → lookup k c.m ≡ some e
      → now ≤ later
      → Keeps key v at later c
      → leb e.expires now ≡ true
      → Keeps key v at later (record c { m = delete k c.m })
  unfolding Keeps
  found-Keeps key k v at now later e c f l (inr over) x =
      inr (ground (arith, lookup-delete k key c.m, over.0), over.1)
  found-Keeps key k v at now later e c f l (inl held) x = elim (Bool-cases (k == key)) [
    | inl same ↦
        let here : lookup k c.m ≡ some (record { v = v; expires = at }) =
          ap (λ j. lookup j c.m) (==→eq k key same) ∙ held in
        inr (ground (arith, lookup-delete k key c.m, same), ground (arith, f, here, l, x))
    | inr other ↦ inl (ground (arith, lookup-delete k key c.m, other, held))
  ]

  got-Keeps :
      (key k : ℕ) (v : V) (at now later : ℕ) (o : Option (CacheEntry V)) (c : Cache V)
      → lookup k c.m ≡ o
      → now ≤ later
      → Keeps key v at later c
      → Keeps key v at later (got k now o c).1
  unfolding got
  got-Keeps key k v at now later none c f l h = h
  got-Keeps key k v at now later (some e) c f l h =
      split (λ (r : Option V × Cache V). Keeps key v at later r.1) (leb e.expires now)
        {x = (none, record c { m = delete k c.m })} {y = (some e.v, c)}
        (found-Keeps key k v at now later e c f l h) (λ _. h)

  gets-Keeps :
      (key : ℕ) (v : V) (at later : ℕ) (gs : List (ℕ × ℕ)) (c : Cache V)
      → All (λ (g : ℕ × ℕ). g.1 ≤ later) gs
      → Keeps key v at later c
      → Keeps key v at later (gets gs c)
  unfolding get
  gets-Keeps key v at later [] c a h = h
  gets-Keeps key v at later ((k, now) ∷ gs) c a h =
      gets-Keeps key v at later gs (get k now c).1 a.1
        (got-Keeps key k v at now later (lookup k c.m) c refl a.0 h)

  Keeps-get :
      (key : ℕ) (v : V) (at later : ℕ) (c : Cache V)
      → Keeps key v at later c
      → (get key later c).0 ≡ (if leb at later then none else some v)
  unfolding get got Keeps
  Keeps-get key v at later c (inl held) = ground (arith, held)
  Keeps-get key v at later c (inr over) = ground (arith, over.0, over.1)

  -- What was put is got until its lifetime is over, and nothing after that, whatever is got
  -- meanwhile, under this key or others, and as long as nothing else is put. The gets come at
  -- or before the last one.
  pub get-gets-put :
      (key : ℕ) (v : V) (ttl now later : ℕ) (gs : List (ℕ × ℕ)) (c : Cache V)
      → All (λ (g : ℕ × ℕ). g.1 ≤ later) gs
      → (get key later (gets gs (put key v ttl now c))).0
        ≡ (if leb (now + ttl) later then none else some v)
  unfolding put Keeps
  get-gets-put key v ttl now later gs c a =
      Keeps-get key v (now + ttl) later (gets gs (put key v ttl now c)) (
        gets-Keeps key v (now + ttl) later gs (put key v ttl now c) a (
          inl (
            ground (
              arith,
              lookup-insert key key (record { v = v; expires = now + ttl }) (make_room key now c),
              ==_refl key,
            ))))
