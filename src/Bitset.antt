-- ===== src/Bitset.antt =====
-- include/lib/bitset.h: an array of bytes as a set of indices. A read or write past the array is a
-- fault, `none`.
pub mod Bytes
pub mod Laws
pub mod Scan
use mathlib.Core.Option
use mint.Base.{
  ℕ, zero, suc, ◌+◌, ◌-◌, ◌/◌, ◌%◌, ◌^◌, bit_and, bit_or, Bool, true, false, not, List, Option,
  none, some, get_elem?, set, ◌>>=◌, ltb, ◌==◌, if◌then◌else◌,
}
use mint.Math.{u64, div_round_up}

-- BITSET_SIZE_CALC
unfoldable pub size_calc : ℕ → ℕ
unfolding div_round_up
size_calc size = div_round_up size 8

abbrev pub full : ℕ
full = 0xff

-- A store into a `uint8_t`.
abbrev pub u8 : ℕ → ℕ
u8 n = n % 2 ^ 8

-- `~x` of an `int`.
abbrev pub complement : ℕ → ℕ
complement x = 2 ^ 32 - 1 - x

unfoldable pub set_byte : ℕ → ℕ → ℕ
set_byte byte k = u8 (bit_or byte (2 ^ k))

unfoldable pub unset_byte : ℕ → ℕ → ℕ
unset_byte byte k = u8 (bit_and byte (complement (2 ^ k)))

unfoldable pub test_byte : ℕ → ℕ → Bool
test_byte byte k = not (bit_and byte (2 ^ k) == 0)

unfoldable pub set_bit : List ℕ → ℕ → Option (List ℕ)
unfolding set_byte
set_bit bitset index =
    Option.map (λ byte. set bitset (index / 8) (set_byte byte (index % 8)))
      (get_elem? bitset (index / 8))

unfoldable pub unset_bit : List ℕ → ℕ → Option (List ℕ)
unfolding unset_byte
unset_bit bitset index =
    Option.map (λ byte. set bitset (index / 8) (unset_byte byte (index % 8)))
      (get_elem? bitset (index / 8))

unfoldable pub test_bit : List ℕ → ℕ → Option Bool
unfolding test_byte
test_bit bitset index =
    Option.map (λ byte. test_byte byte (index % 8)) (get_elem? bitset (index / 8))

-- The loop of `bitset_set_group`, with the number of rounds left.
set_group_loop : ℕ → List ℕ → ℕ → Option (List ℕ)
set_group_loop zero bitset index = some bitset
set_group_loop (suc left) bitset index =
    set_bit bitset index >>= λ bitset'. set_group_loop left bitset' (index + 1)

-- The end `start + size` is a `size_t`: if it wraps below `start`, no round is made.
unfoldable pub set_group : List ℕ → ℕ → ℕ → Option (List ℕ)
unfolding set_group_loop set_bit
set_group bitset start size = set_group_loop (u64 (start + size) - start) bitset start

-- What `bitset_first_unset` does: a value, a read past the array, or no answer within the fuel.
pub data Scanned : Type 0 where
  returns : ℕ → Scanned
  fault : Scanned
  out_of_fuel : Scanned

-- The loop of `bitset_first_unset`. Its counter is a `uint8_t`.
unfoldable pub scan : ℕ → List ℕ → ℕ → ℕ → Scanned
unfolding test_bit
scan zero bitset size j = out_of_fuel
scan (suc fuel) bitset size j = elim (ltb j size) [
  | false ↦ returns 0
  | true ↦ elim (test_bit bitset j) [
    | none ↦ fault
    | some false ↦ returns j
    | some true ↦ scan fuel bitset size (u8 (j + 1))
  ]
]

unfoldable pub first_unset : ℕ → List ℕ → ℕ → Scanned
unfolding scan
first_unset fuel bitset size = scan fuel bitset size 0
