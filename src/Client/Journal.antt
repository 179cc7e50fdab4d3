-- ===== src/Client/Journal.antt =====
-- internal/client/journal.go: the credential and the chain of refreshes not yet answered.
-- A method returns the journal that it leaves, beside its result or its error.
pub mod Chain
pub mod Reuse
use catenary.Prelude.{
  ℕ, ◌+◌, ◌<◌, Bool, true, false, ◌||◌, ◌&&◌, not, Option, none, some, List, [], ◌∷◌, ◌++◌, length,
  ltb, ◌==◌, if◌then◌else◌, is_some,
}
use catenary.Client.State.{Journal, Credential, ChainLink, Token, Time, empty}

pub data JournalError : Type 0 where
  no_credential credential_held credential_device credential_incomplete : JournalError
  mint_failed negative_cursor cursor_state_held : JournalError

-- NewJournal: resetLocked over an empty journal.
abbrev pub new_journal : Journal
new_journal = record {
  credential = none;
  chain = [];
  last_sent = 0;
  cursor = 0;
  has_cursor = false;
  messages = [];
  conversations = [];
  users = [];
  counted = [];
  wipes = 0;
}

is_incomplete : Credential → Bool
is_incomplete c = c.device_id == empty || c.access_token == empty || c.refresh_token == empty

unfoldable pub enroll : Journal → Credential → Journal × Option JournalError
unfolding is_incomplete
enroll j cred =
    if is_incomplete cred
    then (j, some credential_incomplete)
    else if is_some j.credential
    then (j, some credential_held)
    else (record j { credential = some cred }, none)

unfoldable pub reenroll : Journal → Credential → Journal × Option JournalError
unfolding is_incomplete
reenroll j cred =
    if is_incomplete cred
    then (j, some credential_incomplete)
    else if not (is_some j.credential)
    then (j, some no_credential)
    else (record j { credential = some cred; chain = []; last_sent = 0 }, none)

-- The switch of Rotate, over the held credential.
rotate_held : Journal → Credential → Credential → Journal × Option JournalError
rotate_held j held next =
    if not (next.device_id == held.device_id)
    then (j, some credential_device)
    else if not (next.user_id == empty) && not (next.user_id == held.user_id)
    then (j, some credential_device)
    else if next.access_token == empty || next.refresh_token == empty
    then (j, some credential_incomplete)
    else (
      record j {
        credential = some (record next { user_id = held.user_id });
        chain = [];
        last_sent = 0;
      },
      none,
    )

unfoldable pub rotate : Journal → Credential → Journal × Option JournalError
unfolding rotate_held
rotate j next = elim j.credential [
  | none ↦ (j, some no_credential)
  | some held ↦ rotate_held j held next
]

abbrev pub chain_len : Journal → ℕ
chain_len j = length j.chain

-- stampLocked.
abbrev pub stamp_locked : Time → Journal → Journal
stamp_locked now j = record j { last_sent = now }

-- The link for a token, and the links before it: `chain[i]` and `chain[:i]`.
unfoldable pub find_link : Token → List ChainLink → Option (List ChainLink × ChainLink)
find_link t [] = none
find_link t (l ∷ ls) =
    let rest = find_link t ls in
    if l.token == t
    then some ([], l)
    else elim rest [ none ↦ none | some (before, found) ↦ some (l ∷ before, found) ]

-- The newest token: the last proposal, or the held refresh token when the chain is empty.
unfoldable pub newest : Token → List ChainLink → Token
newest t [] = t
newest t (l ∷ ls) = newest l.proposal ls

pub data Proposed : Type 0 where
  proposed : Token → Proposed
  moved : Proposed
  failed : JournalError → Proposed

-- What a call of mint would give: a successor, and the stamp that stampLocked writes in the same
-- critical section; none if the generator failed, and then nothing is written.
abbrev pub Mint : Type 0
Mint = Option (Token × Time)

-- A new link behind the given ones, for the token.
pub append_link : Journal → List ChainLink → Token → Mint → Journal × Proposed
append_link j before token none = (j, failed mint_failed)
append_link j before token (some (p, now)) = (
  record (stamp_locked now j) { chain = before ++ record { token = token; proposal = p } ∷ [] },
  proposed p,
)

propose_held : Journal → Credential → Token → Bool → Mint → Journal × Proposed
unfolding append_link
propose_held j held token replace mint = elim (find_link token j.chain) [
  | some (before, l) ↦
      if not replace then (j, proposed l.proposal) else append_link j before token mint
  | none ↦
      if not (token == newest held.refresh_token j.chain)
      then (j, moved)
      else append_link j j.chain token mint
]

-- Journal.propose.
unfoldable pub propose : Journal → Token → Bool → Mint → Journal × Proposed
unfolding propose_held
propose j token replace mint = elim j.credential [
  | none ↦ (j, failed no_credential)
  | some held ↦ propose_held j held token replace mint
]

-- Journal.older: the token presented before this one.
unfoldable pub older_from : Token → ChainLink → List ChainLink → Option Token
older_from t prev [] = none
older_from t prev (l ∷ ls) =
    let rest = older_from t l ls in if l.token == t then some prev.token else rest

unfoldable pub older_in : Token → List ChainLink → Option Token
unfolding older_from
older_in t [] = none
older_in t (l ∷ ls) = older_from t l ls

abbrev pub older : Journal → Token → Option Token
older j t = older_in t j.chain

-- SeedCursor. `int64` is signed, and a negative cursor is refused: its sign is an argument.
unfoldable pub seed_cursor : Journal → Bool → ℕ → Journal × Option JournalError
seed_cursor j negative cursor =
    if negative
    then (j, some negative_cursor)
    else if j.has_cursor || ltb 0 (length j.messages) || ltb 0 j.wipes
    then (j, some cursor_state_held)
    else (record j { cursor = cursor; has_cursor = true }, none)

-- resetLocked: everything but the credential, its chain and the wipe count.
unfoldable pub reset_locked : Journal → Journal
reset_locked j = record j {
  cursor = 0;
  has_cursor = false;
  messages = [];
  conversations = [];
  users = [];
  counted = [];
}
