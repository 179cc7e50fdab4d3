-- ===== src/Hub/Sessions/Counted.antt =====
-- internal/hub/hub.go: the count of sessions, and the channel that Shutdown waits for.
use catenary.Prelude.{
  ℕ, suc, ◌≡◌, refl, ◌&&◌, Option, none, some, List, [], ◌∷◌, ◌++◌, ◌==◌, length, if◌then◌else◌,
  arith,
}
use catenary.Hub.Sessions.{
  Session, Hub, ServerFrame, find, without, put, take_off, remove_locked, enqueue_on,
  enqueue_locked, attach, request_close, close_all, close_going_away, remove_all, shutdown, Close,
}

abbrev pub IsCounted : Hub → Type 0
IsCounted h =
    (h.count ≡ length h.sessions) × (h.drained ≡ (if h.closing && h.count == 0 then 1 else 0))

length-without :
    (i : ℕ) (s : Session) (ss : List Session)
    → find i ss ≡ some s
    → length ss ≡ suc (length (without i ss))
unfolding find without
length-without i s [] f = absurd (ground arith)
length-without i s (x ∷ ss) f = ground (arith, length-without i s ss)

pub length-put : (i : ℕ) (s : Session) (ss : List Session) → length (put i s ss) ≡ length ss
unfolding put
length-put i s [] = refl
length-put i s (x ∷ ss) = ground (arith, length-put i s ss)

take_off-IsCounted :
    (i : ℕ) (o : Option Session) (h : Hub)
    → find i h.sessions ≡ o
    → IsCounted h
    → IsCounted (take_off i o h).0
unfolding take_off
take_off-IsCounted i none h f c = c
take_off-IsCounted i (some s) h f c = (
  ground (arith, length-without i s h.sessions f),
  ground (arith, length-without i s h.sessions f),
)

-- A removal keeps the count.
pub remove_locked-IsCounted : (i : ℕ) (h : Hub) → IsCounted h → IsCounted (remove_locked i h).0
unfolding remove_locked
remove_locked-IsCounted i h c = take_off-IsCounted i (find i h.sessions) h refl c

enqueue_on-IsCounted :
    (i : ℕ) (f : ServerFrame) (o : Option Session) (h : Hub)
    → IsCounted h
    → IsCounted (enqueue_on i f o h).0
unfolding enqueue_on request_close
enqueue_on-IsCounted i f none h c = c
enqueue_on-IsCounted i f (some s) h c =
    let r = remove_locked-IsCounted i h c in
    (ground (arith, length-put i (record s { out = s.out ++ f ∷ [] }) h.sessions), ground arith)

-- An enqueue keeps the count, also when it severs.
pub enqueue_locked-IsCounted :
    (i : ℕ) (f : ServerFrame) (h : Hub) → IsCounted h → IsCounted (enqueue_locked i f h).0
unfolding enqueue_locked
enqueue_locked-IsCounted i f h c = enqueue_on-IsCounted i f (find i h.sessions) h c

pub attach-IsCounted : (i u d : ℕ) (h : Hub) → IsCounted h → IsCounted (attach i u d h)
unfolding attach request_close
attach-IsCounted i u d h c = (ground arith, ground arith)

pub remove_all-IsCounted : (ss : List Session) (h : Hub) → IsCounted h → IsCounted (remove_all ss h)
unfolding remove_all
remove_all-IsCounted [] h c = c
remove_all-IsCounted (s ∷ ss) h c =
    remove_all-IsCounted ss (remove_locked s.id h).0 (remove_locked-IsCounted s.id h c)

pub close_all-IsCounted :
    (how : Close) (ss : List Session) (h : Hub) → IsCounted h → IsCounted (close_all how ss h)
unfolding close_all request_close
close_all-IsCounted how [] h c = c
close_all-IsCounted how (s ∷ ss) h c = close_all-IsCounted how ss _ c

-- Shutdown closes the channel itself only if no session is left to do it.
pub shutdown-IsCounted : (h : Hub) → IsCounted h → IsCounted (shutdown h)
unfolding shutdown
shutdown-IsCounted h c =
    close_all-IsCounted close_going_away h.sessions _ (ground arith, ground arith)
