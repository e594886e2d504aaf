-- ===== src/Tests/BitsetTests.antt =====
-- include/lib/bitset.h on an array of two bytes, and on a full one of 32.
use mint.Base.{
  Bool, all_below, all_below_sound, ℕ, ◌+◌, ◌≡◌, refl, true, false, List, [], ◌∷◌, some, none,
  replicate, arith,
}
use mint.Bitset.{set_bit, unset_bit, test_bit, set_group, first_unset, returns, out_of_fuel}
use mint.Bitset.Laws.{
  IsStored, IsGroupSet, set_bit-IsStored, unset_bit-IsStored, set_group-IsGroupSet,
}
use mint.Bitset.Scan.{IsFull, IsFirstUnset, first_unset-IsFirstUnset, first_unset_endless}

abbrev two : List ℕ
two = 0xff ∷ 0x05 ∷ []

abbrev full_array : List ℕ
full_array = replicate 32 0xff

set_runs : (set_bit two 9 ≡ some (0xff ∷ 0x07 ∷ [])) × (set_bit two 16 ≡ none)
unfolding set_bit
set_runs = (refl, refl)

group_runs : set_group two 9 4 ≡ some (0xff ∷ 0x1f ∷ [])
unfolding set_group
group_runs = refl

scan_runs : (first_unset 20 two 16 ≡ returns 9) × (first_unset 20 two 9 ≡ returns 0)
unfolding first_unset
scan_runs = (refl, refl)

set_bit-IsStored_example : (out : List ℕ) × (set_bit two 9 ≡ some out) × IsStored two 9 true out
set_bit-IsStored_example = set_bit-IsStored two 9 (omega arith) (omega arith)

unset_bit-IsStored_example :
    (out : List ℕ) × (unset_bit two 3 ≡ some out) × IsStored two 3 false out
unset_bit-IsStored_example = unset_bit-IsStored two 3 (omega arith) (omega arith)

set_group-IsGroupSet_example :
    (out : List ℕ) × (set_group two 9 4 ≡ some out) × IsGroupSet two 9 (9 + 4) out
set_group-IsGroupSet_example =
    set_group-IsGroupSet two 9 4 (omega arith) (omega arith) (omega arith)

first_unset-IsFirstUnset_example :
    (r : ℕ) × (first_unset 17 two 16 ≡ returns r) × IsFirstUnset two 16 r
first_unset-IsFirstUnset_example =
    first_unset-IsFirstUnset 17 two 16 (omega arith) (omega arith) (omega arith) (omega arith)

set_in : List ℕ → ℕ → Bool
set_in bitset j = elim (test_bit bitset j) [ none ↦ false | some v ↦ v ]

set_in-true : (bitset : List ℕ) (j : ℕ) → set_in bitset j ≡ true → test_bit bitset j ≡ some true
unfolding set_in
set_in-true bitset j h = ground arith

full_table : all_below 256 (set_in full_array) ≡ true
unfolding all_below set_in test_bit
full_table = refl

full_array-IsFull : IsFull full_array 256
full_array-IsFull j h =
    set_in-true full_array j (all_below_sound 256 (set_in full_array) full_table j h)

first_unset_endless_example : first_unset 1000 full_array 256 ≡ out_of_fuel
first_unset_endless_example =
    first_unset_endless 1000 full_array 256 (omega arith) full_array-IsFull
