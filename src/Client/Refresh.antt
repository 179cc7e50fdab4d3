-- ===== src/Client/Refresh.antt =====
-- internal/client/refresh.go: when a refresh is due, the walk along the chain (exchange), and the
-- single-flight refresh with its terminal verdict.
--
-- The network, the generator, the clock and whatever other contexts do to the device while a
-- request is in flight are the fields of `Server`, over an abstract world.
pub mod Walk
use catenary.Prelude.{
  ℕ, zero, suc, ◌+◌, ◌/◌, ◌≡◌, Bool, true, false, not, ◌&&◌, ◌||◌, Option, none, some, List, [],
  ◌∷◌, length, ltb, leb, ◌==◌, if◌then◌else◌, max, ◌*◌,
}
use catenary.Prelude.Int.{ℤ, pos, negsuc, pos_part, neg_part, sub_ℕ}
use catenary.Client.State.{
  Journal, Credential, Client, Device, Stats, Token, Time, TerminalKind, not_terminal,
  terminal_credential, second,
}
use catenary.Client.Journal
use catenary.Client.Journal.{
  JournalError, Mint, Proposed, proposed, moved, failed, newest, older, chain_len,
}

abbrev pub refresh_floor : ℕ
refresh_floor = 60 * second

abbrev pub max_fresh_proposals : ℕ
max_fresh_proposals = 3

abbrev pub walk_slack : ℕ
walk_slack = 8

-- `Credential.WithServerDate`: the offset is date - deviceNow, and may be negative.
unfoldable pub with_server_date : Credential → Time → Time → Credential
with_server_date cr date device_now = record cr {
  access_issued_at = date;
  clock_offset = sub_ℕ date device_now;
}

-- max(60 s, a third of the served lifetime). A lifetime below zero divides to at most zero, which
-- the floor beats, so the truncated subtraction gives the same maximum.
unfoldable pub refresh_threshold : Credential → ℕ
refresh_threshold cr =
    if cr.access_issued_at == 0
    then refresh_floor
    else max refresh_floor (◌/◌ (Prim.Native.Nat.◌-◌ cr.access_expires_at cr.access_issued_at) 3)

-- expires - (now + offset) < threshold, with the offset's two signs on the two sides.
unfoldable pub refresh_due : Credential → Time → Bool
unfolding refresh_threshold
refresh_due cr device_now =
    if cr.access_expires_at == 0
    then false
    else ltb (cr.access_expires_at + neg_part cr.clock_offset)
        (device_now + pos_part cr.clock_offset + refresh_threshold cr)

-- What one POST /refresh came to, as postRefresh reads it.
pub data Answer : Type 0 where
  granted : Credential → Answer
  unauthorized : Answer
  present_proposal : Answer
  fresh_proposal : ℕ → Answer
  unknown_outcome : Answer

-- The world outside the device.
pub record Server (W : Type 0) : Type 0 where
  -- What the generator and the clock would give now.
  pub mint : W → Mint
  -- POST /refresh with a token and its proposal.
  pub post : W → Credential → Token → Token → Answer × W
  -- What other contexts did to the device while the request was in flight.
  pub others : W → Device → Device
  -- The context ended during the wait that a fresh_proposal asks for.
  pub cancelled : W → Bool

pub data Exchanged : Type 0 where
  rotated : Credential → Exchanged
  refused_oldest : Exchanged
  chain_moved : Exchanged
  collided : Exchanged
  context_ended : Exchanged
  unsettled : Exchanged
  walk_exhausted : Exchanged
  was_killed : Exchanged
  not_proposed : JournalError → Exchanged

abbrev pub bump_walk_backs : Device → Device
bump_walk_backs d = record d {
  client = record d.client {
    stats = record d.client.stats { refresh_walk_backs = d.client.stats.refresh_walk_backs + 1 };
  };
}

abbrev pub mint_only : Mint → Proposed
mint_only none = failed JournalError.mint_failed
mint_only (some (p, now)) = proposed p

pub data Offer : Type 0 where
  offer : Proposed → Offer
  kill : Offer

-- Client.propose: Journal.propose behind the Kill guard.
unfoldable pub propose : Device → Token → Bool → Mint → Device × Offer
propose d token replace m =
    if d.client.faults.no_chain
    then (d, offer (mint_only m))
    else if d.client.killed
    then (d, kill)
    else let (j, p) =
        Journal.propose d.journal token (replace || d.client.faults.propose_afresh) m in
      (record d { journal = j }, offer p)

-- What a walk ends with: its outcome, the device and the world.
abbrev pub Outcome : Type 0 → Type 0
Outcome W = Exchanged × Device × W

module _ {W : Type 0} (sv : Server W) (held : Credential) where
  -- Catenary's own 401: one step back, or the refusal when there is no older token.
  unfoldable pub walk_back :
      (next : W → Device → Token → Bool → ℕ → Outcome W) → Option Token → W → Device → ℕ → Outcome W
  walk_back next none w d collisions = (refused_oldest, d, w)
  walk_back next (some prev) w d collisions = next w (bump_walk_backs d) prev false collisions

  -- The switch on the answer to a token presented with a proposal. `next` is the rest of the loop,
  -- from a token, whether its proposal is replaced, and the collisions met.
  unfoldable pub respond :
      (next : W → Device → Token → Bool → ℕ → Outcome W)
      → Answer
      → W
      → Device
      → Token
      → Token
      → ℕ
      → Outcome W
  unfolding walk_back
  respond next (granted cred) w d token p collisions = (rotated cred, d, w)
  respond next unauthorized w d token p collisions =
      walk_back next (older d.journal token) w d collisions
  respond next present_proposal w d token p collisions = next w d p false collisions
  respond next (fresh_proposal after) w d token p collisions =
      if ltb max_fresh_proposals (collisions + 1)
      then (collided, d, w)
      else if sv.cancelled w
      then (context_ended, d, w)
      else next w d token true (collisions + 1)
  respond next unknown_outcome w d token p collisions = (unsettled, d, w)

  -- What follows Client.propose: the request, while other contexts may touch the device.
  unfoldable pub present :
      (next : W → Device → Token → Bool → ℕ → Outcome W)
      → Offer
      → W
      → Device
      → Token
      → ℕ
      → Outcome W
  present next kill w d token collisions = (was_killed, d, w)
  present next (offer (failed e)) w d token collisions = (not_proposed e, d, w)
  present next (offer moved) w d token collisions = (chain_moved, d, w)
  present next (offer (proposed p)) w d token collisions =
      let (a, w1) = sv.post w held token p in respond next a w1 (sv.others w1 d) token p collisions

  -- The loop of exchange, on the steps left.
  unfoldable pub walk : ℕ → W → Device → Token → Bool → ℕ → Outcome W
  walk zero w d token replace collisions = (walk_exhausted, d, w)
  walk (suc steps) w d token replace collisions =
      let (d1, o) = propose d token replace (sv.mint w) in
      present (walk steps) o w d1 token collisions

  unfoldable pub exchange : W → Device → Outcome W
  unfolding respond present walk
  exchange w d =
      let token =
        if d.client.faults.no_chain
        then held.refresh_token
        else newest held.refresh_token d.journal.chain in
      walk (chain_len d.journal + walk_slack) w d token false 0
