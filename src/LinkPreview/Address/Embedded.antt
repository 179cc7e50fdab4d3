-- ===== src/LinkPreview/Address/Embedded.antt =====
-- internal/linkpreview/address.go, judge: IPv4 addresses inside IPv6 ones, and the rest of IPv6.
use catenary.Prelude.{ℕ, ◌+◌, ◌*◌, ◌/◌, ◌%◌, ◌^◌, ◌<◌, ◌≡◌, refl, false, none, ◌↔◌, ◌==◌, arith}
use catenary.LinkPreview.Address.{
  judge_plain6, judge_ranges, blocked_v6, Addr, addr4, addr6, judge, judge4, judge6,
}

-- The forms: by itself, ::ffff:0:0/96, 64:ff9b::/96, and 2002::/16 with what follows the address.
pub data Form : Type 0 where
  plain mapped nat64 : Form
  six_to_four : (rest : ℕ) → Form

abbrev pub carry : Form → ℕ → Addr
carry plain x = addr4 x
carry mapped x = addr6 (65535 * 2 ^ 32 + x)
carry nat64 x = addr6 ((100 * 2 ^ 80 + 65435 * 2 ^ 64) * 2 ^ 32 + x)
carry (six_to_four rest) x = addr6 (8194 * 2 ^ 112 + x * 2 ^ 80 + rest % 2 ^ 80)

-- The bits above and below the address.
mapped_div : (x : ℕ) → x < 2 ^ 32 → (65535 * 2 ^ 32 + x) / 2 ^ 32 ≡ 65535
mapped_div x l = omega (arith, l)

mapped_mod : (x : ℕ) → x < 2 ^ 32 → (65535 * 2 ^ 32 + x) % 2 ^ 32 ≡ x
mapped_mod x l = omega (arith, l)

nat64_div :
    (x : ℕ)
    → x < 2 ^ 32
    → ((100 * 2 ^ 80 + 65435 * 2 ^ 64) * 2 ^ 32 + x) / 2 ^ 32 ≡ 100 * 2 ^ 80 + 65435 * 2 ^ 64
nat64_div x l = omega (arith, l)

nat64_mod : (x : ℕ) → x < 2 ^ 32 → ((100 * 2 ^ 80 + 65435 * 2 ^ 64) * 2 ^ 32 + x) % 2 ^ 32 ≡ x
nat64_mod x l = omega (arith, l)

six_div :
    (x rest : ℕ)
    → x < 2 ^ 32
    → (8194 * 2 ^ 112 + x * 2 ^ 80 + rest % 2 ^ 80) / 2 ^ 80 ≡ 8194 * 2 ^ 32 + x
six_div x rest l = omega (arith, l)

six_top : (x rest : ℕ) → x < 2 ^ 32 → (8194 * 2 ^ 112 + x * 2 ^ 80 + rest % 2 ^ 80) / 2 ^ 112 ≡ 8194
six_top x rest l = omega (arith, l)

six_mod : (x : ℕ) → x < 2 ^ 32 → (8194 * 2 ^ 32 + x) % 2 ^ 32 ≡ x
six_mod x l = omega (arith, l)

judge6_mapped : (a x : ℕ) → a / 2 ^ 32 ≡ 65535 → a % 2 ^ 32 ≡ x → judge6 a ≡ judge4 x
unfolding judge6
judge6_mapped a x d e = rw (d, e) refl

judge6_nat64 :
    (a x : ℕ) → a / 2 ^ 32 ≡ 100 * 2 ^ 80 + 65435 * 2 ^ 64 → a % 2 ^ 32 ≡ x → judge6 a ≡ judge4 x
unfolding judge6
judge6_nat64 a x d e = rw (d, e) refl

judge6_six :
    (a x y : ℕ)
    → (a / 2 ^ 32 == 65535) ≡ false
    → (a / 2 ^ 32 == 100 * 2 ^ 80 + 65435 * 2 ^ 64) ≡ false
    → a / 2 ^ 112 ≡ 8194
    → a / 2 ^ 80 ≡ y
    → y % 2 ^ 32 ≡ x
    → judge6 a ≡ judge4 x
unfolding judge6
judge6_six a x y n m t d e = rw (n, m, t, d, e) refl

-- What an IPv6 address is below 2002::/16 for its top bits to differ.
top_not : (a k : ℕ) → a / 2 ^ 112 ≡ 8194 → k < 2 ^ 92 → (a / 2 ^ 32 == k) ≡ false
top_not a k t l = ground arith

-- An IPv4 address is judged by the IPv4 list, whether it stands by itself, in ::ffff:0:0/96, in
-- 64:ff9b::/96, or in 2002::/16 with anything behind it: no form of carrying it gets round the
-- list.
pub judge-carry : (f : Form) (x : ℕ) → x < 2 ^ 32 → judge (carry f x) ≡ judge4 x
unfolding judge
judge-carry plain x l = refl
judge-carry mapped x l = judge6_mapped _ x (mapped_div x l) (mapped_mod x l)
judge-carry nat64 x l = judge6_nat64 _ x (nat64_div x l) (nat64_mod x l)
judge-carry (six_to_four rest) x l =
    let a = 8194 * 2 ^ 112 + x * 2 ^ 80 + rest % 2 ^ 80 in
    let top = six_top x rest l in
    judge6_six a x (8194 * 2 ^ 32 + x) (top_not a 65535 top (omega arith))
      (top_not a (100 * 2 ^ 80 + 65435 * 2 ^ 64) top (omega arith)) top (six_div x rest l)
      (six_mod x l)

-- An IPv6 address that carries no IPv4 address is allowed exactly if it is in 2000::/3 and in
-- none of the ranges that are cut out of it: what is unassigned fails closed.
pub judge_plain6-eq-none_iff :
    (a : ℕ) → (judge_plain6 a ≡ none) ↔ ((a / 2 ^ 125 ≡ 1) × (judge_ranges blocked_v6 a ≡ none))
unfolding judge_plain6
judge_plain6-eq-none_iff a = (λ h. ground arith, λ h. ground arith)
