-- ===== src/Bitset/Laws.antt =====
-- Stores and tests of include/lib/bitset.h: a bitset as a set of indices.
use native.Mathlib.Decide.{ℕ_discrete}
use mint.Base.{
  ℕ, zero, suc, ◌+◌, ◌*◌, ◌^◌, ◌/◌, ◌%◌, ◌≤◌, ◌<◌, Bool, true, false, ◌&&◌, List, [], ◌∷◌, none,
  some, ◌≡◌, ◌≢◌, refl, ap, ◌∙◌, arith, length, get_elem?, set, length-set, get_elem?-set_self,
  get_elem?-set_ne, ltb, leb, ◌==◌, ne→==-false, if◌then◌else◌,
}
use mint.Math.Rounding.{div_round_up_least}
use mint.Bitset.{
  size_calc, set_byte, unset_byte, test_byte, set_bit, unset_bit, test_bit, set_group,
  set_group_loop,
}
use mint.Bitset.Bytes.{test_byte-set_byte, test_byte-unset_byte, set_byte-lt, unset_byte-lt}

abbrev pub IsBytes : List ℕ → Type 0
IsBytes [] = Unit {0}
IsBytes (x ∷ xs) = (x < 256) × IsBytes xs

-- BITSET_SIZE_CALC gives room for a bit each, unless the sum wraps.
pub size_calc_lem : (n : ℕ) → n + 7 < 2 ^ 64 → n ≤ size_calc n * 8
unfolding size_calc
size_calc_lem n h = (div_round_up_least n 8 (omega arith) h).0

-- The array has a byte for the index.
abbrev pub InRange : List ℕ → ℕ → Type 0
InRange bitset index = index / 8 < length bitset

get_elem?-some : (xs : List ℕ) (i : ℕ) → i < length xs → (x : ℕ) × (get_elem? xs i ≡ some x)
get_elem?-some [] i h = elim h [ ]
get_elem?-some (x ∷ xs) zero h = (x, refl)
get_elem?-some (x ∷ xs) (suc i) h = get_elem?-some xs i (omega arith)

get_elem?-some_lt : (xs : List ℕ) (i x : ℕ) → get_elem? xs i ≡ some x → i < length xs
get_elem?-some_lt [] i x e = cc
get_elem?-some_lt (y ∷ xs) zero x e = omega arith
get_elem?-some_lt (y ∷ xs) (suc i) x e = omega (arith, get_elem?-some_lt xs i x e)

get_elem?-none : (xs : List ℕ) (i : ℕ) → length xs ≤ i → get_elem? xs i ≡ none
get_elem?-none [] i h = refl
get_elem?-none (x ∷ xs) zero h = absurd (omega arith)
get_elem?-none (x ∷ xs) (suc i) h = get_elem?-none xs i (omega arith)

byte-lt : (xs : List ℕ) (i x : ℕ) → IsBytes xs → get_elem? xs i ≡ some x → x < 256
byte-lt [] i x b e = cc
byte-lt (y ∷ xs) zero x b e = ground arith
byte-lt (y ∷ xs) (suc i) x b e = byte-lt xs i x b.1 e

set-IsBytes : (xs : List ℕ) (i v : ℕ) → v < 256 → IsBytes xs → IsBytes (set xs i v)
set-IsBytes [] i v h b = tt
set-IsBytes (x ∷ xs) zero v h b = (h, b.1)
set-IsBytes (x ∷ xs) (suc i) v h b = (b.0, set-IsBytes xs i v h b.1)

-- `out` holds what `bitset` holds, but for the index, which it has exactly if `v`.
pub record IsStored (bitset : List ℕ) (index : ℕ) (v : Bool) (out : List ℕ) : Type 0 where
  pub bytes : IsBytes out
  pub same_length : length out ≡ length bitset
  pub tests : (j : ℕ) → test_bit out j ≡ (if index == j then some v else test_bit bitset j)

-- A store that changes one byte in such a way.
module _ (bitset : List ℕ) (index x y : ℕ) (v : Bool) (bytes : IsBytes bitset)
    (at : get_elem? bitset (index / 8) ≡ some x) (small : y < 256)
    (law : (j : ℕ) → j < 8 → test_byte y j ≡ (if index % 8 == j then v else test_byte x j)) where
  in_array : index / 8 < length bitset
  in_array = get_elem?-some_lt bitset (index / 8) x at

  test-store_same :
      (j : ℕ)
      → index / 8 ≡ j / 8
      → test_bit (set bitset (index / 8) y) j ≡ (if index == j then some v else test_bit bitset j)
  unfolding test_bit
  test-store_same j e =
      rw (← e, get_elem?-set_self bitset (index / 8) y in_array, at) (ground (arith, law (j % 8)))

  test-store_other :
      (j : ℕ)
      → index / 8 ≢ j / 8
      → test_bit (set bitset (index / 8) y) j ≡ (if index == j then some v else test_bit bitset j)
  unfolding test_bit
  test-store_other j ne =
      rw (get_elem?-set_ne bitset y ne, ne→==-false index j (λ e. ne (ap (λ t. t / 8) e)))

  store-IsStored : IsStored bitset index v (set bitset (index / 8) y)
  store-IsStored = record {
    bytes = set-IsBytes bitset (index / 8) y small bytes;
    same_length = length-set bitset (index / 8) y;
    tests = λ j. elim (ℕ_discrete (index / 8) (j / 8)) [
      | yes e ↦ test-store_same j e
      | no ne ↦ test-store_other j ne
    ];
  }

module _ (bitset : List ℕ) (index : ℕ) (bytes : IsBytes bitset) (fits : InRange bitset index) where
  -- `bitset_set` at an index of the array puts that index in, and no other index changes.
  pub set_bit-IsStored :
      (out : List ℕ) × (set_bit bitset index ≡ some out) × IsStored bitset index true out
  unfolding set_bit
  set_bit-IsStored =
      let (x, at) = get_elem?-some bitset (index / 8) fits in
      (
        set bitset (index / 8) (set_byte x (index % 8)),
        rw at,
        store-IsStored bitset index x _ true bytes at (set_byte-lt x (index % 8)) (λ j h.
            test_byte-set_byte (index % 8) j x (omega arith) h (byte-lt bitset _ x bytes at)),
      )

  -- `bitset_unset` at an index of the array takes that index out, and no other index changes.
  pub unset_bit-IsStored :
      (out : List ℕ) × (unset_bit bitset index ≡ some out) × IsStored bitset index false out
  unfolding unset_bit
  unset_bit-IsStored =
      let (x, at) = get_elem?-some bitset (index / 8) fits in
      (
        set bitset (index / 8) (unset_byte x (index % 8)),
        rw at,
        store-IsStored bitset index x _ false bytes at (unset_byte-lt x (index % 8)) (λ j h.
            test_byte-unset_byte (index % 8) j x (omega arith) h (byte-lt bitset _ x bytes at)),
      )

  -- In the array `bitset_test` has an answer.
  pub test_bit-some : (v : Bool) × (test_bit bitset index ≡ some v)
  unfolding test_bit
  test_bit-some =
      let (x, at) = get_elem?-some bitset (index / 8) fits in (test_byte x (index % 8), rw at)

-- Past the array each of the three is a fault.
pub past_array :
    (bitset : List ℕ) (index : ℕ)
    → length bitset ≤ index / 8
    → (set_bit bitset index ≡ none)
      × (unset_bit bitset index ≡ none)
      × (test_bit bitset index ≡ none)
unfolding set_bit unset_bit test_bit
past_array bitset index h = rw (get_elem?-none bitset (index / 8) h) (refl, refl, refl)

-- Indices from `lo` up to, but without, `hi`.
abbrev pub within : ℕ → ℕ → ℕ → Bool
within lo hi j = leb lo j && ltb j hi

-- `out` holds what `bitset` holds and the whole range besides.
pub record IsGroupSet (bitset : List ℕ) (lo hi : ℕ) (out : List ℕ) : Type 0 where
  pub bytes : IsBytes out
  pub same_length : length out ≡ length bitset
  pub tests : (j : ℕ) → test_bit out j ≡ (if within lo hi j then some true else test_bit bitset j)

set_group_loop-IsGroupSet :
    (left index hi : ℕ) (bitset : List ℕ)
    → index + left ≡ hi
    → IsBytes bitset
    → hi ≤ 8 * length bitset
    → (out : List ℕ) × (set_group_loop left bitset index ≡ some out)
      × IsGroupSet bitset index hi out
unfolding set_group_loop
set_group_loop-IsGroupSet zero index hi bitset e b h =
    (bitset, refl, record { bytes = b; same_length = refl; tests = λ j. ground arith })
set_group_loop-IsGroupSet (suc left) index hi bitset e b h =
    let (mid, runs, first) = set_bit-IsStored bitset index b (omega arith) in
    let (out, runs', rest) =
      set_group_loop-IsGroupSet left (index + 1) hi mid (omega arith) first.bytes
        (rw first.same_length h) in
    (
      out,
      rw runs runs',
      record {
        bytes = rest.bytes;
        same_length = rest.same_length ∙ first.same_length;
        tests = λ j. rw (rest.tests j, first.tests j) (ground arith);
      },
    )

-- With a range inside the array and no wrap, `bitset_set_group` puts in exactly the range.
pub set_group-IsGroupSet :
    (bitset : List ℕ) (start size : ℕ)
    → IsBytes bitset
    → start + size ≤ 8 * length bitset
    → start + size < 2 ^ 64
    → (out : List ℕ) × (set_group bitset start size ≡ some out)
      × IsGroupSet bitset start (start + size) out
unfolding set_group
set_group-IsGroupSet bitset start size b h nowrap =
    set_group_loop-IsGroupSet _ start (start + size) bitset (omega arith) b h
