-- ===== src/Bitset/Scan.antt =====
-- `bitset_first_unset` of include/lib/bitset.h and its `uint8_t` counter.
use native.Mathlib.Decide.{dec_lt}
use mint.Base.{
  ℕ, zero, suc, ◌+◌, ◌-◌, ◌*◌, ◌≤◌, ◌<◌, Bool, true, false, List, some, ◌≡◌, ◌⊎◌, inl, inr, refl,
  ◌∙◌, arith, length,
}
use mint.Bitset.{u8, test_bit, returns, out_of_fuel, scan, first_unset}
use mint.Bitset.Laws.{IsBytes, test_bit-some}

-- All indices below `n` are in the set.
abbrev pub IsFull : List ℕ → ℕ → Type 0
IsFull bitset n = (j : ℕ) → j < n → test_bit bitset j ≡ some true

-- The answer is the least index outside the set, or 0 when there is none below `size`.
abbrev pub IsFirstUnset : List ℕ → ℕ → ℕ → Type 0
IsFirstUnset bitset size r =
    ((r < size) × (test_bit bitset r ≡ some false) × IsFull bitset r)
    ⊎ ((r ≡ 0) × IsFull bitset size)

IsFull-suc :
    (bitset : List ℕ) (n : ℕ)
    → IsFull bitset n
    → test_bit bitset n ≡ some true
    → IsFull bitset (n + 1)
IsFull-suc bitset n h e j lt = elim (dec_lt j n) [
  | yes p ↦ h j p
  | no p ↦ let same : j ≡ n = omega arith in rw same e
]

scan-end :
    (fuel : ℕ) (bitset : List ℕ) (size j : ℕ) → size ≤ j → scan (suc fuel) bitset size j ≡ returns 0
unfolding scan
scan-end fuel bitset size j h = ground arith

scan-hit :
    (fuel : ℕ) (bitset : List ℕ) (size j : ℕ)
    → j < size
    → test_bit bitset j ≡ some false
    → scan (suc fuel) bitset size j ≡ returns j
unfolding scan
scan-hit fuel bitset size j h e = ground arith

scan-next :
    (fuel : ℕ) (bitset : List ℕ) (size j : ℕ)
    → j < size
    → test_bit bitset j ≡ some true
    → scan (suc fuel) bitset size j ≡ scan fuel bitset size (u8 (j + 1))
unfolding scan
scan-next fuel bitset size j h e = ground arith

scan_lem :
    (fuel : ℕ) (bitset : List ℕ) (size j : ℕ)
    → IsBytes bitset
    → size ≤ 255
    → size ≤ 8 * length bitset
    → j ≤ size
    → size - j < fuel
    → IsFull bitset j
    → (r : ℕ) × (scan fuel bitset size j ≡ returns r) × IsFirstUnset bitset size r
scan_lem zero bitset size j b small fits le enough h = absurd (omega arith)
scan_lem (suc fuel) bitset size j b small fits le enough h = elim (dec_lt j size) [
  | yes p ↦
      let (v, e) = test_bit-some bitset j b (omega arith) in
      go v e p (scan_lem fuel bitset size (u8 (j + 1)) b small fits (omega arith) (omega arith))
  | no p ↦ (0, scan-end fuel bitset size j (omega arith), inr (refl, λ i q. h i (omega arith)))
]
  where
    go :
        (v : Bool)
        → test_bit bitset j ≡ some v
        → j < size
        → (IsFull bitset (u8 (j + 1))
            → (r : ℕ) × (scan fuel bitset size (u8 (j + 1)) ≡ returns r)
              × IsFirstUnset bitset size r)
        → (r : ℕ) × (scan (suc fuel) bitset size j ≡ returns r) × IsFirstUnset bitset size r
    go false e p rest = (j, scan-hit fuel bitset size j p e, inl (p, e, h))
    go true e p rest =
        let same : u8 (j + 1) ≡ j + 1 = omega arith in
        let (r, runs, first) = rest (rw same (IsFull-suc bitset j h e)) in
        (r, scan-next fuel bitset size j p e ∙ runs, first)

-- Up to 255 indices inside the array, `bitset_first_unset` stops and gives the least index outside
-- the set, or 0 if there is none. A round for each index and one more are fuel enough.
pub first_unset-IsFirstUnset :
    (fuel : ℕ) (bitset : List ℕ) (size : ℕ)
    → IsBytes bitset
    → size ≤ 255
    → size ≤ 8 * length bitset
    → size < fuel
    → (r : ℕ) × (first_unset fuel bitset size ≡ returns r) × IsFirstUnset bitset size r
unfolding first_unset
first_unset-IsFirstUnset fuel bitset size b small fits enough =
    scan_lem fuel bitset size 0 b small fits (omega arith) (omega arith) (λ j h. elim h [ ])

scan_endless :
    (fuel : ℕ) (bitset : List ℕ) (size j : ℕ)
    → 256 ≤ size
    → IsFull bitset 256
    → j < 256
    → scan fuel bitset size j ≡ out_of_fuel
scan_endless zero bitset size j big h lt = unfold scan in refl
scan_endless (suc fuel) bitset size j big h lt =
    scan-next fuel bitset size j (omega arith) (h j lt)
    ∙ scan_endless fuel bitset size (u8 (j + 1)) big h (omega arith)

-- The counter is a `uint8_t`: asked about 256 indices or more, of which the first 256 are in the
-- set, `bitset_first_unset` never returns, whatever the fuel.
pub first_unset_endless :
    (fuel : ℕ) (bitset : List ℕ) (size : ℕ)
    → 256 ≤ size
    → IsFull bitset 256
    → first_unset fuel bitset size ≡ out_of_fuel
unfolding first_unset
first_unset_endless fuel bitset size big h = scan_endless fuel bitset size 0 big h (omega arith)
