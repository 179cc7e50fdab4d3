-- ===== src/Client/Hold.antt =====
-- internal/client/hold.go: what bounds the chain. The gate and the backoff, off one stamp.
pub mod Delay
use catenary.Prelude.{
  ℕ, zero, suc, ◌+◌, ◌*◌, ◌≡◌, Bool, true, false, ◌&&◌, not, leb, ltb, ◌==◌, if◌then◌else◌, min,
}
use catenary.Client.State.{Client, Device, Stats, Time, second}
use catenary.Client.Journal.{chain_len}

abbrev pub refresh_backoff_base : ℕ
refresh_backoff_base = 5 * second

abbrev pub refresh_backoff_cap : ℕ
refresh_backoff_cap = 900 * second

pub data RefreshHold : Type 0 where
  refresh_not_held refresh_held_unreachable refresh_held_backoff : RefreshHold

-- The loop of refreshDelay, on the rounds left: `if d >= cap { break }; d *= 2`.
unfoldable pub double_to_cap : ℕ → ℕ → ℕ
double_to_cap zero d = d
double_to_cap (suc n) d =
    let rest = double_to_cap n (d * 2) in if leb refresh_backoff_cap d then d else rest

unfoldable pub refresh_delay : ℕ → ℕ
unfolding double_to_cap
refresh_delay zero = 0
refresh_delay (suc n) = min (double_to_cap n refresh_backoff_base) refresh_backoff_cap

-- A stamp in the future is absent.
unfoldable pub read_stamp : Time → Time → Time
read_stamp last_sent now = if ltb now last_sent then 0 else last_sent

unfoldable pub gate_open : Time → Time → Bool
gate_open answered_at stamp =
    if answered_at == 0 then false else if stamp == 0 then true else ltb stamp answered_at

unfoldable pub backoff_pending : ℕ → Time → Time → Bool
backoff_pending links stamp now = not (stamp == 0) && ltb now (stamp + refresh_delay links)

unfoldable pub refresh_hold_at : ℕ → Time → Time → Time → RefreshHold
unfolding read_stamp gate_open backoff_pending
refresh_hold_at links answered_at last_sent now =
    if links == 0
    then refresh_not_held
    else let stamp = read_stamp last_sent now in
      if not (gate_open answered_at stamp)
      then refresh_held_unreachable
      else if backoff_pending links stamp now
      then refresh_held_backoff
      else refresh_not_held

-- markAnswered: only ever later.
unfoldable pub mark_answered : Client → Time → Client
mark_answered c now = if ltb c.answered_at now then record c { answered_at = now } else c

-- holdNow, less its log lines.
unfoldable pub hold_now : Device → Time → RefreshHold
hold_now d now =
    if chain_len d.journal == 0
    then refresh_not_held
    else if d.client.faults.unbounded
    then refresh_not_held
    else refresh_hold_at (chain_len d.journal) d.client.answered_at d.journal.last_sent now

unfoldable pub count_held : Client → RefreshHold → Client
count_held c refresh_held_unreachable = record c {
  stats = record c.stats { refreshes_held_unreachable = c.stats.refreshes_held_unreachable + 1 };
}
count_held c refresh_held_backoff = record c {
  stats = record c.stats { refreshes_held_backoff = c.stats.refreshes_held_backoff + 1 };
}
count_held c refresh_not_held = c
