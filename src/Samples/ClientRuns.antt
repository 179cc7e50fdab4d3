-- ===== src/Samples/ClientRuns.antt =====
-- The chain, the refresh, the holds and the dial loop, run.
use catenary.Prelude.{ℕ, ◌+◌, ◌*◌, ◌≤◌, ◌<◌, ◌≡◌, ◌↔◌, refl, inl, false, none, some, [], ◌∷◌, arith}
use catenary.Client.State.{Journal, second}
use catenary.Client.Journal.{propose, proposed, find_link, newest, older_in}
use catenary.Client.Journal.Chain.{IsChained, propose-IsChained}
use catenary.Client.Journal.Reuse.{propose-propose}
use catenary.Client.Refresh.{refused_oldest, exchange}
use catenary.Client.Refresh.Walk.{IsWalking, exchange-refused_oldest}
use catenary.Client.Flight.{refresh_after_401, refresh_due_when_allowed}
use catenary.Client.Flight.Verdict.{IsQuiet, automatic_refresh-held}
use catenary.Client.Hold.{refresh_not_held, hold_now, read_stamp}
use catenary.Client.Hold.Delay.{wait_of, hold_now-eq-not_held_iff}
use catenary.Client.Terminal
use catenary.Client.Refresh
use catenary.Client.Terminal.{
  classify_close, stop_protocol_failure, reconnect_at_maximum, IsFatal, classify_close-eq-stop_iff,
}
use catenary.Client.Backoff.{SessionEnd, ramp}
use catenary.Samples.ClientData.{phone, pair, device_2, refuses}

store_2-IsChained : IsChained device_2.journal
store_2-IsChained = record { linked = (refl, (refl, tt)); unstamped = λ h. absurd (ground arith) }

propose-IsChained_example :
    IsChained (propose device_2.journal 42 false (some (43, 200 * second))).0
propose-IsChained_example =
    propose-IsChained device_2.journal 42 false (some (43, 200 * second)) store_2-IsChained

-- The journal after a third send.
abbrev store_3 : Journal
unfolding propose
store_3 = (propose device_2.journal 42 false (some (43, 200 * second))).0

third_send : propose device_2.journal 42 false (some (43, 200 * second)) ≡ (store_3, proposed 43)
unfolding propose store_3 find_link newest
third_send = refl

propose-propose_example : propose store_3 42 false none ≡ (store_3, proposed 43)
propose-propose_example =
    propose-propose device_2.journal 42 false (some (43, 200 * second)) none store_2-IsChained
      third_send

device_2-IsWalking : IsWalking pair device_2
device_2-IsWalking = record {
  alive = refl;
  chained = refl;
  holds = refl;
  journal = store_2-IsChained;
}

refused_run : (exchange refuses pair 0 device_2).0 ≡ refused_oldest
unfolding exchange Refresh.propose propose find_link newest older_in
refused_run = refl

exchange-refused_oldest_example :
    (w1 : ℕ) × (p : ℕ) × (refuses.post w1 pair 40 p
      ≡ (Refresh.unauthorized, (exchange refuses pair 0 device_2).2))
exchange-refused_oldest_example =
    exchange-refused_oldest refuses pair (λ w d. refl) 0 device_2 device_2-IsWalking refused_run

-- Two links, the last of them sent 100 seconds in, and no answer since.
automatic_refresh-held_example :
    IsQuiet refuses 0 device_2 (refresh_after_401 refuses 0 device_2 pair pair (300 * second))
    × IsQuiet refuses 0 device_2 (refresh_due_when_allowed refuses 0 device_2 pair (300 * second))
automatic_refresh-held_example =
    automatic_refresh-held refuses 0 device_2 pair pair (300 * second) 1 refl refl (omega arith)
      (omega arith) (inl (omega arith))

hold_now-eq-not_held_iff_example : (hold_now device_2 (300 * second) ≡ refresh_not_held) ↔ (
    (device_2.journal.last_sent < device_2.client.answered_at)
    × (device_2.journal.last_sent + wait_of 1 ≤ 300 * second))
hold_now-eq-not_held_iff_example =
    hold_now-eq-not_held_iff device_2 (300 * second) 1 refl refl (omega arith) (omega arith)

classify_close-eq-stop_iff_example :
    (classify_close (some 1008) (some Terminal.unauthorized) ≡ stop_protocol_failure)
    ↔ IsFatal (some 1008) (some Terminal.unauthorized)
classify_close-eq-stop_iff_example =
    classify_close-eq-stop_iff (some 1008) (some Terminal.unauthorized)

earlier : read_stamp (100 * second) (105 * second) < 103 * second
unfolding read_stamp
earlier = omega arith

-- A session that failed to open, and one that was ready for a minute and was closed.
abbrev failed_dial : SessionEnd
failed_dial = record {
  opened = false;
  readied = false;
  readied_for = 0;
  status = none;
  preceding = none;
}

ramp_run : ramp (λ d. d) phone second (failed_dial ∷ failed_dial ∷ []) ≡ some (4 * second)
unfolding ramp
ramp_run = refl
