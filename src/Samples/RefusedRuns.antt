-- ===== src/Samples/RefusedRuns.antt =====
-- The wait of a refused token, run: another context rotates the pair during the first pause.
use catenary.Prelude.{◌==◌, ◌*◌, ◌≡◌, refl, false, some, List, [], ◌∷◌}
use catenary.Client.State.{Device, second}
use catenary.Client.Refused.{access_token, Poll, carry_on, withheld_dial, wait_while_refused}
use catenary.Client.Refused.Carry.{wait_while_refused-other_token}
use catenary.Samples.ClientData.{phone, pair, store_1}

abbrev refused_device : Device
refused_device = record { client = record phone { refused_token = 30 }; journal = store_1 }

rotate_aside : Device → Device
rotate_aside d = record d {
  journal = record store_1 { credential = some (record pair { access_token = 31 }) };
}

abbrev polls : List Poll
unfolding rotate_aside
polls =
    record { now = second; ended = false; others = rotate_aside; cut = false }
    ∷ record { now = 61 * second; ended = false; others = λ d. d; cut = false }
    ∷ []

polls_run : (wait_while_refused withheld_dial polls refused_device).0 ≡ carry_on
unfolding wait_while_refused polls
polls_run = refl

wait_while_refused-other_token_example :
    (access_token (wait_while_refused withheld_dial polls refused_device).1.journal.credential
      == 30)
    ≡ false
unfolding polls
wait_while_refused-other_token_example =
    wait_while_refused-other_token 30 polls refused_device refl refl refl
      (λ x. (refl, refl), (λ x. (refl, refl), tt)) polls_run
