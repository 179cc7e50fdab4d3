-- ===== src/Hub/Typing/Who.antt =====
-- internal/hub/hub.go: whom a typing list names, and what a detach leaves of the table.
use catenary.Prelude.{
  ℕ, ◌≡◌, refl, sym, ap, ◌∙◌, inl, inr, true, false, Option, none, some, List, [], ◌∷◌, ◌==◌, arith,
  ltb, is_some, has, has-append_last, IsDistinct, append_last-IsDistinct, keys-insert_held,
  keys-insert_new, member-has, exists, lookup, keys, if◌then◌else◌, Bool-cases, ==→eq, split, All,
}
use catenary.Hub.Sessions.{Uuid}
use catenary.Hub.Typing.{
  Entry, TypingTable, earliest, keep_earlier, is_before, place_user, in_order, typing_list,
  is_entry, without_entry, with_row, drop_typing, emit_typing, emit_all, detach, TypingHub,
}

-- A list of keys that names exactly whom the entries name, each once.
record Names (ks : List Uuid) (es : List Entry) : Type 0 where
  once : IsDistinct ks
  who : (u : Uuid) → has u ks ≡ exists (λ (e : Entry). e.user_id == u) es

keep_earlier-Names :
    (e : Entry) (es : List Entry) (seen : List (Uuid × ℕ)) (o : Option ℕ)
    → lookup e.user_id seen ≡ o
    → Names (keys seen) es
    → Names (keys (keep_earlier e seen o)) (e ∷ es)
keep_earlier-Names e es seen none h n =
    let absent : has e.user_id (keys seen) ≡ false =
      sym (member-has e.user_id seen) ∙ ap is_some h in
    rw (keys-insert_new e.user_id e.at seen absent) (record {
      once = append_last-IsDistinct (keys seen) e.user_id n.once absent;
      who = λ u. ground (arith, has-append_last u e.user_id (keys seen), n.who u);
    })
keep_earlier-Names e es seen (some cur) h n =
    let present : has e.user_id (keys seen) ≡ true =
      sym (member-has e.user_id seen) ∙ ap is_some h in
    let same : Names (keys seen) (e ∷ es) = record {
      once = n.once;
      who = λ u. elim (Bool-cases (e.user_id == u)) [
        | inl own ↦
            ground (arith, own, ap (λ x. has x (keys seen)) (==→eq e.user_id u own), present)
        | inr other ↦ ground (arith, other, n.who u)
      ];
    } in
    split (λ (s : List (Uuid × ℕ)). Names (keys s) (e ∷ es)) (ltb e.at cur)
      (λ _. rw (keys-insert_held e.user_id e.at seen present) same) (λ _. same)

earliest-Names : (es : List Entry) → Names (keys (earliest es)) es
unfolding earliest
earliest-Names [] = record { once = tt; who = λ u. refl }
earliest-Names (e ∷ es) =
    keep_earlier-Names e es (earliest es) (lookup e.user_id (earliest es)) refl (earliest-Names es)

has-place_user :
    (u : Uuid) (x : Uuid × ℕ) (ys : List (Uuid × ℕ))
    → has u (keys (place_user x ys)) ≡ (if x.0 == u then true else has u (keys ys))
unfolding place_user
has-place_user u (v, a) [] = ground arith
has-place_user u (v, a) ((w, b) ∷ ys) = ground (arith, has-place_user u (v, a) ys)

place_user-IsDistinct :
    (x : Uuid × ℕ) (ys : List (Uuid × ℕ))
    → IsDistinct (keys ys)
    → has x.0 (keys ys) ≡ false
    → IsDistinct (keys (place_user x ys))
unfolding place_user
place_user-IsDistinct (v, a) [] d n = (refl, tt)
place_user-IsDistinct (v, a) ((w, b) ∷ ys) d n =
    split (λ (l : List (Uuid × ℕ)). IsDistinct (keys l)) (is_before (w, b) (v, a))
      (λ _. (
        ground (arith, n, d.0, has-place_user w (v, a) ys),
        place_user-IsDistinct (v, a) ys d.1 (ground (arith, n)),
      ))
      (λ _. (n, d))

in_order-has : (u : Uuid) (xs : List (Uuid × ℕ)) → has u (keys (in_order xs)) ≡ has u (keys xs)
unfolding in_order
in_order-has u [] = refl
in_order-has u ((v, a) ∷ xs) =
    ground (arith, has-place_user u (v, a) (in_order xs), in_order-has u xs)

in_order-IsDistinct :
    (xs : List (Uuid × ℕ)) → IsDistinct (keys xs) → IsDistinct (keys (in_order xs))
unfolding in_order
in_order-IsDistinct [] d = tt
in_order-IsDistinct ((v, a) ∷ xs) d =
    place_user-IsDistinct (v, a) (in_order xs) (in_order-IsDistinct xs d.1)
      (in_order-has v xs ∙ d.0)

-- The typing list of a conversation names exactly the users who have an entry there, from however
-- many of their sessions, and each of them once.
pub typing_list-names :
    (es : List Entry) (u : Uuid)
    → IsDistinct (typing_list es)
      × (has u (typing_list es) ≡ exists (λ (e : Entry). e.user_id == u) es)
unfolding typing_list
typing_list-names es u =
    let n = earliest-Names es in
    (in_order-IsDistinct (earliest es) n.once, in_order-has u (earliest es) ∙ n.who u)

-- No conversation has an entry of the session.
abbrev pub IsOff : ℕ → TypingTable → Type 0
IsOff i t = All (λ (c : Uuid × List Entry). is_entry i c.1 ≡ false) t

without_entry-off : (i : ℕ) (es : List Entry) → is_entry i (without_entry i es) ≡ false
unfolding is_entry without_entry
without_entry-off i [] = refl
without_entry-off i (e ∷ es) = ground (arith, without_entry-off i es)

with_row-IsOff :
    (i conv : ℕ) (es : List Entry) (rest : TypingTable)
    → is_entry i es ≡ false
    → IsOff i rest
    → IsOff i (with_row conv es rest)
with_row-IsOff i conv [] rest off h = h
with_row-IsOff i conv (e ∷ es) rest off h = (off, h)

drop_typing-IsOff : (i : ℕ) (t : TypingTable) → IsOff i (drop_typing i t)
unfolding drop_typing
drop_typing-IsOff i [] = tt
drop_typing-IsOff i ((conv, es) ∷ t) =
    split (IsOff i) (is_entry i es)
      (λ _.
        with_row-IsOff i conv (without_entry i es) _ (without_entry-off i es)
          (drop_typing-IsOff i t))
      (λ off. (off, drop_typing-IsOff i t))

emit_all-typing :
    (members : Uuid → Option (List Uuid)) (cs : List Uuid) (h : TypingHub)
    → (emit_all members cs h).typing ≡ h.typing
unfolding emit_typing
emit_all-typing members [] h = refl
emit_all-typing members (c ∷ cs) h =
    emit_all-typing members cs (emit_typing c none (members c) h)
    ∙ emit_typing-typing c (members c) h
  where
    emit_typing-typing :
        (conv : Uuid) (o : Option (List Uuid)) (k : TypingHub)
        → (emit_typing conv none o k).typing ≡ k.typing
    emit_typing-typing conv none k = refl
    emit_typing-typing conv (some ms) k = refl

pub detach-IsOff :
    (i : ℕ) (members : Uuid → Option (List Uuid)) (h : TypingHub)
    → IsOff i (detach i members h).typing
unfolding detach
detach-IsOff i members h = rw (emit_all-typing members _ _) (drop_typing-IsOff i h.typing)
