-- ===== src/Hub/Steps.antt =====
-- internal/hub/hub.go: the hub's life, as the steps that its lock orders. The read re-emission's burst and
-- the typing table are a step's own inputs, whatever they are; detach is its removal, and then one
-- emission for each conversation that it changed.
pub mod Life
use catenary.Prelude.{ℕ, ◌≡◌, Bool, false, Option, List, [], has}
use catenary.Hub.Sessions.{
  Hub, Uuid, Session, attach, remove_locked, sever_if_dead, run_turn, shutdown,
}
use catenary.Hub.Outbox.{ids}
use catenary.Hub.Fanout.{Loaded, HeadRead, ReadBurst, ReadMessage, on_notify, gap, on_read_notify}
use catenary.Hub.Typing.{ClientFrame, TypingTable, TypingHub, handle, emit_typing}
use catenary.Hub.Revoke.{RevocationPayload, DeadDevices, on_revocation, on_revocation_gap}

-- The hub of New.
abbrev pub new_hub : Hub
new_hub = record {
  sessions = [];
  removed = [];
  count = 0;
  closing = false;
  drained = 0;
  closes = [];
}

pub data Step : Hub → Hub → Type 0 where
  attached :
      (i : ℕ) (u d : Uuid) (h : Hub) → has i (ids h.sessions) ≡ false → Step h (attach i u d h)
  checked : (i : ℕ) (answer : Option (List Uuid)) (h : Hub) → Step h (sever_if_dead i answer h)
  detached : (i : ℕ) (h : Hub) → Step h (remove_locked i h).0
  wrote : (ok : Bool) (i : ℕ) (h : Hub) → Step h (run_turn ok i h)
  notified : (l : Loaded) (r : HeadRead) (h : Hub) → Step h (on_notify l r h)
  listener_gap : (r : HeadRead) (h : Hub) → Step h (gap r h)
  read_notified :
      (b : Option Uuid) (ms : Option (List ReadMessage)) (burst : ReadBurst) (h : Hub)
      → Step h (on_read_notify b ms (burst, h)).1
  revoked : (p : RevocationPayload) (h : Hub) → Step h (on_revocation p h)
  revocation_gap :
      (a : DeadDevices) (all : List Session) (h : Hub) → Step h (on_revocation_gap a all h)
  handled :
      (i : ℕ) (user : Uuid) (f : ClientFrame) (t : TypingTable) (h : Hub)
      → Step h (handle i user f (record { hub = h; typing = t })).hub
  typing_emitted :
      (conv : Uuid) (except : Option ℕ) (members : Option (List Uuid)) (t : TypingTable) (h : Hub)
      → Step h (emit_typing conv except members (record { hub = h; typing = t })).hub
  shut_down : (h : Hub) → Step h (shutdown h)

-- What the hub of New comes to.
pub data Reachable : Hub → Type 0 where
  fresh : Reachable new_hub
  next : {h k : Hub} → Reachable h → Step h k → Reachable k
