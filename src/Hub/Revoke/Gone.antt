-- ===== src/Hub/Revoke/Gone.antt =====
-- internal/hub/hub.go, OnRevocation: the sessions that it takes off the table.
use catenary.Prelude.{
  ℕ, ◌≡◌, refl, ap, ==→eq, Bool, true, false, not, ◌&&◌, ◌||◌, Option, none, some, List, [], ◌∷◌,
  ◌++◌, ◌==◌, keep, has, IsDistinct, if◌then◌else◌, arith,
}
use catenary.Hub.Sessions.{
  Session, Hub, find, remove_locked, remove_all, close_all, take_off, request_close, Close,
  close_revoked,
}
use catenary.Hub.Outbox.{ids, IsTable, find-without, without-IsDistinct, same-find}
use catenary.Hub.Revoke.{
  RevocationPayload, is, doomed_by, on_revocation, dead_devices, sessions_on, on_devices,
  on_revocation_gap,
}

take_off-find :
    (j i : ℕ) (o : Option Session) (h : Hub)
    → IsTable h
    → find i h.sessions ≡ o
    → find j (take_off i o h).0.sessions ≡ (if i == j then none else find j h.sessions)
unfolding take_off
take_off-find j i none h d e = ground (arith, same-find i j h.sessions)
take_off-find j i (some s) h d e = find-without j i h.sessions d

pub take_off-IsTable :
    (i : ℕ) (o : Option Session) (h : Hub) → IsTable h → IsTable (take_off i o h).0
unfolding take_off
take_off-IsTable i none h d = d
take_off-IsTable i (some s) h d = without-IsDistinct i h.sessions d

remove_all-find :
    (j : ℕ) (ss : List Session) (h : Hub)
    → IsTable h
    → find j (remove_all ss h).sessions ≡ (if has j (ids ss) then none else find j h.sessions)
unfolding remove_all remove_locked
remove_all-find j [] h d = refl
remove_all-find j (s ∷ ss) h d = ground (
  arith,
  remove_all-find j ss (remove_locked s.id h).0 (take_off-IsTable s.id (find s.id h.sessions) h d),
  take_off-find j s.id (find s.id h.sessions) h d refl,
)

pub close_all-sessions :
    (how : Close) (ss : List Session) (h : Hub) → (close_all how ss h).sessions ≡ h.sessions
unfolding close_all request_close
close_all-sessions how [] h = refl
close_all-sessions how (s ∷ ss) h = close_all-sessions how ss _

same-has : (i j : ℕ) (ss : List Session) → (j == i) ≡ true → has j (ids ss) ≡ has i (ids ss)
same-has i j ss e = ap (λ x. has x (ids ss)) (==→eq j i e)

meets : (Session → Bool) → Option Session → Bool
meets p none = false
meets p (some s) = p s

module _ (p : Session → Bool) where
  absent-keep :
      (i : ℕ) (ss : List Session) → has i (ids ss) ≡ false → has i (ids (keep p ss)) ≡ false
  absent-keep i [] h = refl
  absent-keep i (s ∷ ss) h = ground (arith, absent-keep i ss)

  keep-has :
      (i : ℕ) (ss : List Session)
      → IsDistinct (ids ss)
      → has i (ids (keep p ss)) ≡ meets p (find i ss)
  unfolding meets find
  keep-has i [] d = refl
  keep-has i (s ∷ ss) d =
      ground (arith, keep-has i ss d.1, absent-keep i ss, same-has i s.id ss, d.0)

has-append :
    (i : ℕ) (xs ys : List Session) → has i (ids (xs ++ ys)) ≡ (has i (ids xs) || has i (ids ys))
has-append i [] ys = refl
has-append i (x ∷ xs) ys = ground (arith, has-append i xs ys)

-- The session is the subject's.
abbrev pub is_subject : RevocationPayload → Session → Bool
is_subject p s = is p.user_id s.user_id || is p.device_id s.device_id

-- A session that is on the table is off it after a revocation exactly if the revocation names its
-- user or its device; any other stays, with its outbox. Sessions have different numbers.
pub on_revocation-find :
    (p : RevocationPayload) (i : ℕ) (s : Session) (h : Hub)
    → IsTable h
    → find i h.sessions ≡ some s
    → find i (on_revocation p h).sessions ≡ (if is_subject p s then none else some s)
unfolding on_revocation doomed_by meets
on_revocation-find p i s h d f = ground (
  arith,
  close_all-sessions close_revoked (doomed_by p h) (remove_all (doomed_by p h) h),
  remove_all-find i (doomed_by p h) h d,
  has-append i (keep (λ s. is p.user_id s.user_id) h.sessions)
      (keep (λ s. not (is p.user_id s.user_id) && is p.device_id s.device_id) h.sessions),
  keep-has (λ s. is p.user_id s.user_id) i h.sessions d,
  keep-has (λ s. not (is p.user_id s.user_id) && is p.device_id s.device_id) i h.sessions d,
  f,
)

module _ (i : ℕ) (all : List Session) where
  on_devices-has :
      (ds : List ℕ) (s : Session)
      → IsDistinct (ids all)
      → find i all ≡ some s
      → has s.device_id ds ≡ true
      → has i (ids (on_devices ds all)) ≡ true
  unfolding on_devices sessions_on meets
  on_devices-has [] s n f h = ground (arith, h)
  on_devices-has (d ∷ ds) s n f h = ground (
    arith,
    has-append i (keep (λ x. x.device_id == d) all) (on_devices ds all),
    keep-has (λ x. x.device_id == d) i all n,
    on_devices-has ds s n f,
    f,
    h,
  )

-- After the re-check that follows a gap, no session that was there when it began and is on a
-- device that the store called dead is on the table, whatever the table came to hold meanwhile.
pub on_revocation_gap-find :
    (i : ℕ) (ds : List ℕ) (all : List Session) (h : Hub) (s : Session)
    → IsTable h
    → IsDistinct (ids all)
    → find i all ≡ some s
    → has s.device_id ds ≡ true
    → find i (on_revocation_gap (dead_devices ds) all h).sessions ≡ none
unfolding on_revocation_gap
on_revocation_gap-find i ds all h s t n f d = ground (
  arith,
  close_all-sessions close_revoked (on_devices ds all) (remove_all (on_devices ds all) h),
  remove_all-find i (on_devices ds all) h t,
  on_devices-has i all ds s n f d,
)
