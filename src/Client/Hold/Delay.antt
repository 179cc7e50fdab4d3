-- ===== src/Client/Hold/Delay.antt =====
-- internal/client/hold.go, refreshDelay and holdNow: the delay, and when a refresh is not held.
use catenary.Prelude.{
  ℕ, zero, suc, ◌+◌, ◌*◌, ◌^◌, ◌≤◌, ◌<◌, ◌≡◌, ◌↔◌, false, inl, inr, leb, min, arith, Bool-cases,
}
use native.Mathlib.Nat.{pow-suc}
use catenary.Client.State.{Time, Device}
use catenary.Client.Journal.{chain_len}
use catenary.Client.Hold.{
  refresh_backoff_base, refresh_backoff_cap, double_to_cap, refresh_delay, refresh_hold_at,
  refresh_not_held, hold_now,
}

le-mul-pow : (d n : ℕ) → d ≤ d * 2 ^ n
le-mul-pow d zero = omega arith
le-mul-pow d (suc n) = rw pow-suc (omega (arith, le-mul-pow d n))

-- The loop stops doubling only where the cap is passed, so the minimum with the cap is the same as
-- if it had doubled to the end.
double_to_cap-min :
    (n d : ℕ) → min (double_to_cap n d) refresh_backoff_cap ≡ min (d * 2 ^ n) refresh_backoff_cap
unfolding double_to_cap
double_to_cap-min zero d = omega arith
double_to_cap-min (suc n) d = elim (Bool-cases (leb refresh_backoff_cap d)) [
  | inl capped ↦ ground (arith, le-mul-pow d (suc n))
  | inr below ↦ rw below (rw pow-suc (omega (arith, double_to_cap-min n (d * 2))))
]

-- The delay of a chain of n links is min(15 min, 5 s * 2^(n-1)): the loop that stops doubling at
-- the cap computes the closed form, for n at least 1.
pub refresh_delay-closed :
    (n : ℕ) → refresh_delay (suc n) ≡ min (refresh_backoff_base * 2 ^ n) refresh_backoff_cap
unfolding refresh_delay
refresh_delay-closed n = double_to_cap-min n refresh_backoff_base

-- What a chain of links waits for after its last send: 5 s * 2^(n-1), and 15 minutes at most.
abbrev pub wait_of : ℕ → ℕ
wait_of n = min (refresh_backoff_base * 2 ^ n) refresh_backoff_cap

-- With n + 1 links, the last sent at a time that is set and not in the future, an automatic
-- refresh is not held exactly if Catenary answered after the last send and min(15 min, 5 s * 2^n)
-- has gone by since then; the fault that lifts the bound is off.
pub hold_now-eq-not_held_iff :
    (d : Device) (now : Time) (n : ℕ)
    → d.client.faults.unbounded ≡ false
    → chain_len d.journal ≡ suc n
    → 0 < d.journal.last_sent
    → d.journal.last_sent ≤ now
    → (hold_now d now ≡ refresh_not_held)
      ↔ ((d.journal.last_sent < d.client.answered_at) × (d.journal.last_sent + wait_of n ≤ now))
unfolding hold_now refresh_hold_at
hold_now-eq-not_held_iff d now n b l s p = (
  λ h. ground (arith, l, refresh_delay-closed n),
  λ h. ground (arith, l, refresh_delay-closed n, h.0, h.1),
)
