-- ===== src/Client/Refused/Waits.antt =====
-- internal/client/refused.go: when a refused token waits, and the refresh's own backoff.
use catenary.Prelude.{ℕ, ◌<◌, ◌≡◌, ◌≢◌, ◌↔◌, true, false, arith}
use catenary.Client.State.{Device, Time, empty}
use catenary.Client.Hold.{read_stamp, refresh_hold_at, refresh_not_held}
use catenary.Client.Refused.{access_token, mark_refused, refused_hold_at, refused_dial}

-- While the answer that refused a token is later than the last send, the wait of the refused
-- token and the hold of the refresh end together.
pub refused_hold_at-refresh_hold_at :
    (links : ℕ) (answered last_sent now : Time)
    → 0 < answered
    → read_stamp last_sent now < answered
    → (refused_hold_at true links last_sent now ≡ false)
      ↔ (refresh_hold_at links answered last_sent now ≡ refresh_not_held)
unfolding refused_hold_at refresh_hold_at
refused_hold_at-refresh_hold_at links answered last_sent now a o =
    (λ h. ground arith, λ h. ground arith)

-- A client that has been refused with the token it still holds does not dial, whatever the clock says.
refused_dial_marked :
    (d : Device)
    → d.client.refresh_enabled ≡ true
    → d.client.faults.present_refused_token ≡ false
    → access_token d.journal.credential ≢ empty
    → (refused_dial
        (record d { client = mark_refused d.client (access_token d.journal.credential) })).1
      ≡ true
unfolding refused_dial mark_refused
refused_dial_marked d r f t = ground arith
