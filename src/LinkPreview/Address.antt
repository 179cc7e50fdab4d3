-- ===== src/LinkPreview/Address.antt =====
-- internal/linkpreview/address.go: which addresses a socket may connect to. An IPv4 address is a number
-- below 2^32 and an IPv6 address one below 2^128; netip's predicates are the arithmetic of their prefixes.
pub mod Embedded
use catenary.Prelude.{
  ℕ, ◌+◌, ◌-◌, ◌*◌, ◌/◌, ◌%◌, ◌^◌, Bool, true, false, not, ◌&&◌, ◌||◌, Option, none, some, List, [],
  ◌∷◌, ◌==◌, is_some, if◌then◌else◌,
}

pub data Class : Type 0 where
  invalid unspecified private cgnat loopback link_local reserved documentation benchmarking
        multicast :
      Class

-- A prefix: its base, and how many addresses it has.
pub record RangeClass : Type 0 where
  pub base : ℕ
  pub span : ℕ
  pub class : Class

-- Prefix.Contains: the bits before the prefix length agree.
abbrev pub contains : ℕ → ℕ → ℕ → Bool
contains base span a = a / span == base / span

abbrev pub range4 : (a b c d bits : ℕ) → Class → RangeClass
range4 a b c d bits class = record {
  base = a * 2 ^ 24 + b * 2 ^ 16 + c * 2 ^ 8 + d;
  span = 2 ^ (32 - bits);
  class = class;
}

-- The base by its first three groups of sixteen bits.
abbrev pub range6 : (a b c bits : ℕ) → Class → RangeClass
range6 a b c bits class = record {
  base = a * 2 ^ 112 + b * 2 ^ 96 + c * 2 ^ 80;
  span = 2 ^ (128 - bits);
  class = class;
}

unfoldable pub blocked_v4 : List RangeClass
blocked_v4 =
    range4 0 0 0 0 8 unspecified
    ∷ range4 10 0 0 0 8 private
    ∷ range4 100 64 0 0 10 cgnat
    ∷ range4 127 0 0 0 8 loopback
    ∷ range4 169 254 0 0 16 link_local
    ∷ range4 172 16 0 0 12 private
    ∷ range4 192 0 0 0 24 reserved
    ∷ range4 192 0 2 0 24 documentation
    ∷ range4 192 88 99 0 24 reserved
    ∷ range4 192 168 0 0 16 private
    ∷ range4 198 18 0 0 15 benchmarking
    ∷ range4 198 51 100 0 24 documentation
    ∷ range4 203 0 113 0 24 documentation
    ∷ range4 224 0 0 0 4 multicast
    ∷ range4 240 0 0 0 4 reserved
    ∷ []

unfoldable pub blocked_v6 : List RangeClass
blocked_v6 =
    range6 8193 0 0 32 reserved
    ∷ range6 8193 2 0 48 benchmarking
    ∷ range6 8193 16 0 28 reserved
    ∷ range6 8193 32 0 28 reserved
    ∷ range6 8193 3512 0 32 documentation
    ∷ range6 16383 0 0 20 documentation
    ∷ []

-- The class of the first range that has the address; none is allowed.
unfoldable pub judge_ranges : List RangeClass → ℕ → Option Class
judge_ranges [] a = none
judge_ranges (r ∷ rs) a = if contains r.base r.span a then some r.class else judge_ranges rs a

unfoldable pub judge4 : ℕ → Option Class
judge4 a = judge_ranges blocked_v4 a

pub data Addr : Type 0 where
  no_addr : Addr
  addr4 addr6 : ℕ → Addr

-- judge on an IPv6 address that carries no IPv4 address.
unfoldable pub judge_plain6 : ℕ → Option Class
judge_plain6 a =
    if a == 1
    then some loopback
    else if a == 0
    then some unspecified
    else if contains (255 * 2 ^ 120) (2 ^ 120) a
    then some multicast
    else if contains (65152 * 2 ^ 112) (2 ^ 118) a
    then some link_local
    else if contains (64512 * 2 ^ 112) (2 ^ 121) a
    then some private
    else if not (contains (8192 * 2 ^ 112) (2 ^ 125) a)
    then some reserved
    else judge_ranges blocked_v6 a

-- ::ffff:0:0/96, 64:ff9b::/96 and 2002::/16, whose address is taken out and judged.
unfoldable pub judge6 : ℕ → Option Class
unfolding judge_plain6
judge6 a =
    if a / 2 ^ 32 == 65535
    then judge4 (a % 2 ^ 32)
    else if a / 2 ^ 32 == (100 * 2 ^ 80 + 65435 * 2 ^ 64)
    then judge4 (a % 2 ^ 32)
    else if a / 2 ^ 112 == 8194
    then judge4 ((a / 2 ^ 80) % 2 ^ 32)
    else judge_plain6 a

-- judge: the class that refuses the address, none if it is allowed.
unfoldable pub judge : Addr → Option Class
unfolding judge6
judge no_addr = some invalid
judge (addr4 a) = judge4 a
judge (addr6 a) = judge6 a
