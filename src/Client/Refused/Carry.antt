-- ===== src/Client/Refused/Carry.antt =====
-- internal/client/refused.go, waitWhileRefused: the device when the wait before a dial is over.
use catenary.Prelude.{◌≡◌, ap, ◌∙◌, true, false, not, List, [], ◌∷◌, ◌==◌, All, split, arith}
use catenary.Client.State.{Device, Faults, Token, empty}
use catenary.Client.Refused.{
  access_token, refused_dial, refused_now, count_withheld, Poll, Waited, carry_on, context_ended,
  withheld_dial, wait_while_refused,
}

-- A device on which a token is marked as refused, and the fault that presents such tokens is off.
record IsMarked (t : Token) (d : Device) : Type 0 where
  marked : d.client.refused_token ≡ t
  off : d.client.faults.present_refused_token ≡ false

-- The token is not the one that the pair carries now.
IsOther : Token → Device → Type 0
IsOther t d = (access_token d.journal.credential == t) ≡ false

dial-IsOther :
    (t : Token) (d : Device)
    → (t == empty) ≡ false
    → IsMarked t d
    → (refused_dial d).1 ≡ false
    → IsOther t (refused_dial d).0
unfolding refused_dial refused_now IsOther
dial-IsOther t d n v h = ground (arith, n, v.marked, v.off, h)

-- A dial that is withheld leaves the mark.
dial-IsMarked :
    (t : Token) (d : Device)
    → IsMarked t d
    → (refused_dial d).1 ≡ true
    → IsMarked t (refused_dial d).0
unfolding refused_dial refused_now
dial-IsMarked t d v h = record {
  marked = ground (arith, v.marked, v.off, h);
  off = ground (arith, v.off);
}

-- What other contexts leave alone: the mark, and the client's faults.
abbrev pub Leaves : Poll → Type 0
Leaves p =
    (x : Device)
    → ((p.others x).client.refused_token ≡ x.client.refused_token)
      × ((p.others x).client.faults ≡ x.client.faults)

others-IsMarked :
    (t : Token) (p : Poll) (d : Device)
    → Leaves p
    → IsMarked t d
    → IsMarked t (p.others (record d { client = count_withheld withheld_dial d.client }))
unfolding count_withheld
others-IsMarked t p d o v =
    let counted = record d { client = count_withheld withheld_dial d.client } in
    record {
      marked = (o counted).0 ∙ v.marked;
      off = ap (λ (x : Faults). x.present_refused_token) (o counted).1 ∙ v.off;
    }

-- A result that lets the client go on has a device whose pair is another.
Clear : Token → Waited × Device → Type 0
Clear t (w, d) = w ≡ carry_on → IsOther t d

waits-Clear :
    (t : Token) (ps : List Poll) (d : Device)
    → (t == empty) ≡ false
    → IsMarked t d
    → All Leaves ps
    → Clear t (wait_while_refused withheld_dial ps d)
unfolding wait_while_refused Clear
waits-Clear t [] d n v o = λ h. absurd (ground (arith, h))
waits-Clear t (p ∷ ps) d n v o =
    let d1 = (refused_dial d).0 in
    let d2 = p.others (record d1 { client = count_withheld withheld_dial d1.client }) in
    split (Clear t) (not (refused_dial d).1) (λ goes h. dial-IsOther t d n v (ground (arith, goes)))
      (λ held.
        split (Clear t) p.cut {x = (context_ended, d2)} (λ c h. absurd (ground (arith, h)))
          (λ c.
            waits-Clear t ps d2 n
              (others-IsMarked t p d1 o.0 (dial-IsMarked t d v (ground (arith, held)))) o.1))

-- A token is marked as refused. If the wait before a dial lets the client go on, the pair that it
-- would present does not carry that token, whatever other contexts do to the device between its
-- polls, short of changing the mark or the client's faults; the fault that presents refused
-- tokens is off.
pub wait_while_refused-other_token :
    (t : Token) (ps : List Poll) (d : Device)
    → (t == empty) ≡ false
    → d.client.refused_token ≡ t
    → d.client.faults.present_refused_token ≡ false
    → All Leaves ps
    → (wait_while_refused withheld_dial ps d).0 ≡ carry_on
    → (access_token (wait_while_refused withheld_dial ps d).1.journal.credential == t) ≡ false
unfolding Clear IsOther
wait_while_refused-other_token t ps d n marked off o =
    waits-Clear t ps d n (record { marked = marked; off = off }) o
