-- ===== src/Hub/Steps/Life.antt =====
-- internal/hub/hub.go: what all of a hub's steps keep.
use catenary.Prelude.{
  ℕ, ◌+◌, ◌≡◌, refl, sym, Bool, false, not, Option, none, some, List, [], ◌∷◌, has, IsDistinct, leb,
  insert, ◌∙◌, split, arith,
}
use mathlib.Core.Path.{subst}
use catenary.Hub.Sessions.{
  Hub, Uuid, Session, ServerFrame, find, attach, remove_locked, sever_if_dead, sever_answer,
  run_turn, on_session, write_one, shutdown, close_all, request_close, remove_all, push_all,
  enqueue_locked, Close, close_revoked, close_restart, close_going_away,
}
use catenary.Hub.Sessions.Counted.{
  IsCounted, length-put, remove_locked-IsCounted, enqueue_locked-IsCounted, attach-IsCounted,
  close_all-IsCounted, shutdown-IsCounted,
}
use catenary.Hub.Outbox.{ids, IsTable, enqueue_locked-IsTable, find_id, ids-put}
use catenary.Hub.Fanout.{
  Loaded, load_cancelled, load_not_found, load_failed, loaded, HeadRead, head_cancelled,
  head_failed, head_is, ReadBurst, ReadMessage, Member, FanoutMessage, on_notify, gap, fan_out,
  to_sessions, sessions_of, frames_for, on_read_notify, read_batched, read_unbatched, read_one,
  emit, is_empty, read_notify_cap, spent_of,
}
use catenary.Hub.Revoke.{
  check_cancelled, check_failed, dead_devices, on_revocation, on_revocation_gap, doomed_by,
  on_devices,
}
use catenary.Hub.Revoke.Gone.{take_off-IsTable, close_all-sessions}
use catenary.Hub.Typing.{
  TypingHub, TypingState, ClientFrame, client_read, client_typing, client_other, handle, read,
  typing_frame, type_as, find_locked, emit_typing, broadcast_to, broadcast_locked, is_session,
}
use catenary.Store.Reads.{received, seq_out_of_range, not_a_member, read_failed}
use catenary.Hub.Steps.{
  Step, attached, checked, detached, wrote, notified, listener_gap, read_notified, revoked,
  revocation_gap, handled, typing_emitted, shut_down, Reachable, fresh, next,
}

abbrev pub IsSound : Hub → Type 0
IsSound h = IsCounted h × IsTable h

remove-IsSound : (i : ℕ) (h : Hub) → IsSound h → IsSound (remove_locked i h).0
unfolding remove_locked
remove-IsSound i h s =
    (remove_locked-IsCounted i h s.0, take_off-IsTable i (find i h.sessions) h s.1)

push_all-IsSound : (i : ℕ) (fs : List ServerFrame) (h : Hub) → IsSound h → IsSound (push_all i fs h)
push_all-IsSound i [] h s = s
push_all-IsSound i (f ∷ fs) h s =
    push_all-IsSound i fs (enqueue_locked i f h).0
      (enqueue_locked-IsCounted i f h s.0, enqueue_locked-IsTable i f h s.1)

to_sessions-IsSound :
    (ss : List Session) (fs : List ServerFrame) (h : Hub)
    → IsSound h
    → IsSound (to_sessions ss fs h)
to_sessions-IsSound [] fs h s = s
to_sessions-IsSound (x ∷ ss) fs h s =
    to_sessions-IsSound ss fs (push_all x.id fs h) (push_all-IsSound x.id fs h s)

fan_out-IsSound :
    (fm : FanoutMessage) (ms : List Member) (h : Hub) → IsSound h → IsSound (fan_out fm ms h)
unfolding fan_out
fan_out-IsSound fm [] h s = s
fan_out-IsSound fm (m ∷ ms) h s =
    fan_out-IsSound fm ms _ (to_sessions-IsSound (sessions_of m.user_id h) (frames_for fm m) h s)

close_all-IsSound :
    (how : Close) (ss : List Session) (h : Hub) → IsSound h → IsSound (close_all how ss h)
close_all-IsSound how ss h s = (
  close_all-IsCounted how ss h s.0,
  subst (λ x. IsDistinct (ids x)) (sym (close_all-sessions how ss h)) s.1,
)

remove_all-IsSound : (ss : List Session) (h : Hub) → IsSound h → IsSound (remove_all ss h)
unfolding remove_all
remove_all-IsSound [] h s = s
remove_all-IsSound (x ∷ ss) h s =
    remove_all-IsSound ss (remove_locked x.id h).0 (remove-IsSound x.id h s)

gap-IsSound : (r : HeadRead) (h : Hub) → IsSound h → IsSound (gap r h)
unfolding gap
gap-IsSound head_cancelled h s = s
gap-IsSound head_failed h s = close_all-IsSound close_restart h.sessions h s
gap-IsSound (head_is n) h s = to_sessions-IsSound h.sessions _ h s

notify-IsSound : (l : Loaded) (r : HeadRead) (h : Hub) → IsSound h → IsSound (on_notify l r h)
unfolding on_notify
notify-IsSound load_cancelled r h s = s
notify-IsSound load_not_found r h s = s
notify-IsSound load_failed r h s = gap-IsSound r h s
notify-IsSound (loaded fm) r h s = fan_out-IsSound fm fm.members h s

emit-IsSound : (m : ReadMessage) (h : Hub) → IsSound h → IsSound (emit m h)
unfolding emit
emit-IsSound m h s = to_sessions-IsSound (sessions_of m.author_id h) _ h s

read_one-IsSound : (m : ReadMessage) (x : ReadBurst × Hub) → IsSound x.1 → IsSound (read_one m x).1
unfolding read_one
read_one-IsSound m (b, h) s =
    let Sound = λ (x : ReadBurst × Hub). IsSound x.1 in
    split Sound (is_empty (sessions_of m.author_id h)) {x = (b, h)} (λ _. s)
      (λ _.
        split Sound (leb read_notify_cap (spent_of m.author_id b)) {x = (b, h)}
          {y = (
            record b { spent = insert m.author_id (spent_of m.author_id b + 1) b.spent },
            emit m h,
          )}
          (λ _. s) (λ _. emit-IsSound m h s))

batched-IsSound :
    (ms : List ReadMessage) (x : ReadBurst × Hub) → IsSound x.1 → IsSound (read_batched ms x).1
unfolding read_batched
batched-IsSound [] x s = s
batched-IsSound (m ∷ ms) x s = batched-IsSound ms (read_one m x) (read_one-IsSound m x s)

unbatched-IsSound : (ms : List ReadMessage) (h : Hub) → IsSound h → IsSound (read_unbatched ms h)
unfolding read_unbatched
unbatched-IsSound [] h s = s
unbatched-IsSound (m ∷ ms) h s = unbatched-IsSound ms (emit m h) (emit-IsSound m h s)

read-IsSound :
    (b : Option Uuid) (ms : Option (List ReadMessage)) (burst : ReadBurst) (h : Hub)
    → IsSound h
    → IsSound (on_read_notify b ms (burst, h)).1
unfolding on_read_notify
read-IsSound b none burst h s = s
read-IsSound none (some ms) burst h s = unbatched-IsSound ms h s
read-IsSound (some b) (some ms) burst h s = batched-IsSound ms _ s

broadcast_to-IsSound :
    (ss : List Session) (f : ServerFrame) (except : Option ℕ) (h : Hub)
    → IsSound h
    → IsSound (broadcast_to ss f except h).0
unfolding broadcast_to
broadcast_to-IsSound [] f except h s = s
broadcast_to-IsSound (x ∷ ss) f except h s = broadcast_to-IsSound ss f except _ (
    split (λ (r : Hub × Bool). IsSound r.0) (is_session except x.id) (λ _. s)
      (λ _. (enqueue_locked-IsCounted x.id f h s.0, enqueue_locked-IsTable x.id f h s.1)))

broadcast-IsSound :
    (us : List Uuid) (f : ServerFrame) (except : Option ℕ) (h : Hub)
    → IsSound h
    → IsSound (broadcast_locked us f except h).0
unfolding broadcast_locked
broadcast-IsSound [] f except h s = s
broadcast-IsSound (u ∷ us) f except h s =
    broadcast-IsSound us f except (broadcast_to (sessions_of u h) f except h).0
      (broadcast_to-IsSound (sessions_of u h) f except h s)

type_as-IsSound :
    (o : Option Session) (state : TypingState) (now : ℕ) (conv : Uuid) (members : List Uuid)
    (x : TypingHub)
    → IsSound x.hub
    → IsSound (type_as o state now conv members x).hub
unfolding type_as
type_as-IsSound none state now conv members x s = s
type_as-IsSound (some y) state now conv members x s =
    broadcast-IsSound members _ (some y.id) x.hub s

handle-IsSound :
    (i : ℕ) (user : Uuid) (f : ClientFrame) (x : TypingHub)
    → IsSound x.hub
    → IsSound (handle i user f x).hub
unfolding handle read typing_frame request_close
handle-IsSound i user (client_read seq_out_of_range members) x s = s
handle-IsSound i user (client_read not_a_member members) x s = s
handle-IsSound i user (client_read read_failed members) x s = s
handle-IsSound i user (client_read (received r) none) x s = s
handle-IsSound i user (client_read (received r) (some us)) x s =
    split (λ (y : TypingHub). IsSound y.hub) r.advanced (λ _. broadcast-IsSound us _ none x.hub s)
      (λ _. s)
handle-IsSound i user (client_typing conv state now none) x s = s
handle-IsSound i user (client_typing conv state now (some us)) x s =
    split (λ (y : TypingHub). IsSound y.hub) (not (has user us)) (λ _. s)
      (λ _. type_as-IsSound (find_locked i user x.hub) state now conv us x s)
handle-IsSound i user client_other x s = s

emit_typing-IsSound :
    (conv : Uuid) (except : Option ℕ) (members : Option (List Uuid)) (x : TypingHub)
    → IsSound x.hub
    → IsSound (emit_typing conv except members x).hub
unfolding emit_typing
emit_typing-IsSound conv except none x s = s
emit_typing-IsSound conv except (some us) x s = broadcast-IsSound us _ except x.hub s

attach-IsSound :
    (i : ℕ) (u d : Uuid) (h : Hub)
    → has i (ids h.sessions) ≡ false
    → IsSound h
    → IsSound (attach i u d h)
unfolding attach request_close
attach-IsSound i u d h n s =
    (attach-IsCounted i u d h s.0, split IsTable h.closing (λ _. s.1) (λ _. (n, s.1)))

sever-IsSound :
    (i : ℕ) (a : Option (List Uuid)) (h : Hub) → IsSound h → IsSound (sever_if_dead i a h)
unfolding sever_if_dead sever_answer request_close
sever-IsSound i none h s = s
sever-IsSound i (some []) h s = s
sever-IsSound i (some (d ∷ ds)) h s =
    split IsSound (remove_locked i h).1 (λ _. remove-IsSound i h s) (λ _. remove-IsSound i h s)

write_one_id : (ok : Bool) (s : Session) → (write_one ok s).id ≡ s.id
unfolding write_one
write_one_id ok s = ground arith

on_session-IsSound :
    (ok : Bool) (i : ℕ) (o : Option Session) (h : Hub)
    → find i h.sessions ≡ o
    → IsSound h
    → IsSound (record h { sessions = on_session (write_one ok) i o h.sessions })
unfolding on_session
on_session-IsSound ok i none h e s = s
on_session-IsSound ok i (some x) h e s =
    let same = write_one_id ok x ∙ find_id i x h.sessions e in
    (
      (s.0.0 ∙ sym (length-put i (write_one ok x) h.sessions), s.0.1),
      subst IsDistinct (sym (ids-put i (write_one ok x) h.sessions same)) s.1,
    )

turn-IsSound : (ok : Bool) (i : ℕ) (h : Hub) → IsSound h → IsSound (run_turn ok i h)
unfolding run_turn
turn-IsSound ok i h s = on_session-IsSound ok i (find i h.sessions) h refl s

shutdown-IsTable : (h : Hub) → IsTable h → IsTable (shutdown h)
unfolding shutdown
shutdown-IsTable h t =
    subst (λ x. IsDistinct (ids x)) (sym (close_all-sessions close_going_away h.sessions _)) t

Step-IsSound : {h k : Hub} → Step h k → IsSound h → IsSound k
unfolding on_revocation on_revocation_gap
Step-IsSound (attached i u d h n) s = attach-IsSound i u d h n s
Step-IsSound (checked i a h) s = sever-IsSound i a h s
Step-IsSound (detached i h) s = remove-IsSound i h s
Step-IsSound (wrote ok i h) s = turn-IsSound ok i h s
Step-IsSound (notified l r h) s = notify-IsSound l r h s
Step-IsSound (listener_gap r h) s = gap-IsSound r h s
Step-IsSound (read_notified b ms burst h) s = read-IsSound b ms burst h s
Step-IsSound (revoked p h) s =
    close_all-IsSound close_revoked (doomed_by p h) _ (remove_all-IsSound (doomed_by p h) h s)
Step-IsSound (revocation_gap check_cancelled all h) s = s
Step-IsSound (revocation_gap check_failed all h) s =
    close_all-IsSound close_restart all _ (remove_all-IsSound all h s)
Step-IsSound (revocation_gap (dead_devices ds) all h) s =
    close_all-IsSound close_revoked (on_devices ds all) _
      (remove_all-IsSound (on_devices ds all) h s)
Step-IsSound (handled i user f t h) s = handle-IsSound i user f _ s
Step-IsSound (typing_emitted conv except members t h) s =
    emit_typing-IsSound conv except members _ s
Step-IsSound (shut_down h) s = (shutdown-IsCounted h s.0, shutdown-IsTable h s.1)

-- In every state that a hub reaches by its steps, Handle's read and typing frames and the
-- emissions of detach among them, its count is the number of its sessions, no two sessions have
-- one number, and the channel that Shutdown waits for has been closed once if the hub is closing
-- and empty, and not at all otherwise: it is never closed twice, which would panic.
pub Reachable-IsSound : {h : Hub} → Reachable h → IsSound h
Reachable-IsSound fresh = ((refl, refl), tt)
Reachable-IsSound (next r s) = Step-IsSound s (Reachable-IsSound r)
