-- ===== src/Network/Address.antt =====
-- IPv4 addresses and masks, as Python's `ipaddress` reads them in tools/network_agent.py.
use amplifier_panel.Base.{
  ℕ, zero, suc, ◌+◌, ◌-◌, ◌*◌, ◌/◌, ◌^◌, ◌≤◌, ◌≡◌, refl, Bool, true, false, ◌&&◌, not, String,
  Option, none, some, List, [], ◌∷◌, arith, leb, eqb, all_below, all_below_sound, Option-cases, inl,
  inr, if◌then◌else◌,
}
use amplifier_panel.Base.Int.{is_digit}
use amplifier_panel.Base.Text.{codes, strip, after_prefix}
use amplifier_panel.Base.Result.{Result, ok, err}

-- An octet: one to three digits without a leading zero, at most 255.
unfoldable pub octet : List ℕ → Option ℕ
octet (a ∷ []) = if is_digit a then some (a - 48) else none
octet (a ∷ b ∷ []) =
    if is_digit a && is_digit b && not (eqb a 48) then some ((a - 48) * 10 + (b - 48)) else none
octet (a ∷ b ∷ c ∷ []) =
    let n = (a - 48) * 100 + (b - 48) * 10 + (c - 48) in
    if is_digit a && is_digit b && is_digit c && not (eqb a 48) && leb n 255 then some n else none
octet _ = none

abbrev push_front : ℕ → List (List ℕ) → List (List ℕ)
push_front c [] = (c ∷ []) ∷ []
push_front c (part ∷ parts) = (c ∷ part) ∷ parts

-- `text.split(".")`
unfoldable pub split_dots : List ℕ → List (List ℕ)
split_dots [] = [] ∷ []
split_dots (c ∷ cs) =
    let rest = split_dots cs in if eqb c b'.' then [] ∷ rest else push_front c rest

abbrev join_octets : Option ℕ → Option ℕ → Option ℕ → Option ℕ → Option ℕ
join_octets (some a) (some b) (some c) (some d) = some (((a * 256 + b) * 256 + c) * 256 + d)
join_octets _ _ _ _ = none

abbrev four_octets : List (List ℕ) → Option ℕ
four_octets (a ∷ b ∷ c ∷ d ∷ []) = join_octets (octet a) (octet b) (octet c) (octet d)
four_octets _ = none

-- `ipaddress.IPv4Address(text)`, as a 32-bit number.
unfoldable pub ipv4_address : String → Option ℕ
ipv4_address text = four_octets (split_dots (codes text))

abbrev pub all_ones : ℕ
all_ones = 4294967295

-- The mask of a prefix length.
abbrev pub netmask : ℕ → ℕ
netmask p = 2 ^ 32 - 2 ^ (32 - p)

-- The prefix length of a mask: the last of 0, 1, … , n whose mask it is.
unfoldable pub prefix_below : ℕ → ℕ → Option ℕ
prefix_below zero mask = if eqb (netmask 0) mask then some 0 else none
prefix_below (suc n) mask =
    let rest = prefix_below n mask in if eqb (netmask (suc n)) mask then some (suc n) else rest

-- A mask, or else its complement, a host mask.
unfoldable pub prefix_of_mask : ℕ → Option ℕ
prefix_of_mask mask = elim (prefix_below 32 mask) [
  | some p ↦ some p
  | none ↦ prefix_below 32 (all_ones - mask)
]

unfoldable pub decimal : ℕ → List ℕ → Option ℕ
decimal n [] = some n
decimal n (c ∷ cs) = let rest = decimal (n * 10 + (c - 48)) cs in if is_digit c then rest else none

-- `value.isdigit()`, and `int(value)`.
unfoldable pub number_of : List ℕ → Option ℕ
number_of [] = none
number_of (c ∷ cs) = decimal 0 (c ∷ cs)

abbrev pub invalid_mask : String
invalid_mask = "Invalid subnet mask."

unfoldable pub mask_prefix : String → Result String ℕ
mask_prefix value = elim (ipv4_address value) [
  | none ↦ err invalid_mask
  | some mask ↦ elim (prefix_of_mask mask) [ none ↦ err invalid_mask | some p ↦ ok p ]
]

abbrev without_slash : Option String → String → String
without_slash none value = value
without_slash (some rest) value = rest

-- `_prefix`
unfoldable pub prefix : String → Result String ℕ
prefix mask =
    let stripped = strip mask in
    let value = without_slash (after_prefix "/" stripped) stripped in
    elim (number_of (codes value)) [
      | some n ↦ if leb n 32 then ok n else mask_prefix value
      | none ↦ mask_prefix value
    ]

-- `gateway in IPv4Interface(address/prefix).network`
abbrev pub same_network : ℕ → ℕ → ℕ → Bool
same_network p address gateway = eqb (address / 2 ^ (32 - p)) (gateway / 2 ^ (32 - p))

prefix_samples :
    (prefix " /24 " ≡ ok 24)
    × (prefix "255.255.0.0" ≡ ok 16)
    × (prefix "0.0.0.255" ≡ ok 24)
    × (prefix "255.0.255.0" ≡ err invalid_mask)
    × (prefix "33" ≡ err invalid_mask)
unfolding prefix after_prefix strip number_of decimal mask_prefix ipv4_address split_dots octet
    prefix_of_mask prefix_below
prefix_samples = (refl, refl, refl, refl, refl)

prefix_below-le : (n mask p : ℕ) → prefix_below n mask ≡ some p → p ≤ n
unfolding prefix_below
prefix_below-le zero mask p h = ground arith
prefix_below-le (suc n) mask p h = ground (arith, prefix_below-le n mask p)

prefix_of_mask-le : (mask p : ℕ) → prefix_of_mask mask ≡ some p → p ≤ 32
unfolding prefix_of_mask
prefix_of_mask-le mask p h =
    ground (arith, prefix_below-le 32 mask p, prefix_below-le 32 (all_ones - mask) p)

mask_prefix-le : (value : String) (p : ℕ) → mask_prefix value ≡ ok p → p ≤ 32
unfolding mask_prefix
mask_prefix-le value p h = elim (Option-cases (ipv4_address value)) [
  | inl bad ↦ absurd (ground arith)
  | inr (mask, e) ↦ ground (arith, e, prefix_of_mask-le mask p)
]

-- A subnet mask that is accepted has a prefix length of at most 32.
pub prefix-le : (mask : String) (p : ℕ) → prefix mask ≡ ok p → p ≤ 32
unfolding prefix
prefix-le mask p h =
    let stripped = strip mask in
    let value = without_slash (after_prefix "/" stripped) stripped in
    ground (arith, mask_prefix-le value p)

abbrev is_some_of : ℕ → Option ℕ → Bool
is_some_of n none = false
is_some_of n (some m) = eqb m n

mask_table : all_below 33 (λ p. is_some_of p (prefix_of_mask (netmask p))) ≡ true
unfolding all_below prefix_of_mask prefix_below
mask_table = refl

-- The mask of a prefix length of at most 32 is read back as that length.
pub prefix_of_mask-netmask : (p : ℕ) → p ≤ 32 → prefix_of_mask (netmask p) ≡ some p
prefix_of_mask-netmask p h = ground (
  arith,
  all_below_sound 33 (λ p. is_some_of p (prefix_of_mask (netmask p))) p mask_table (omega arith),
)
