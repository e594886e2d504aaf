-- ===== src/Bitset/Bytes.antt =====
-- One byte of a bitset: what setting, clearing and testing a bit do, by evaluation at every byte.
use mint.Base.{
  all_below, all_below_sound, ℕ, ◌<◌, Bool, true, false, not, ◌≡◌, refl, sym, arith, ◌==◌,
  if◌then◌else◌,
}
use mint.Bitset.{set_byte, unset_byte, test_byte}

-- A check of all bits and bytes.
abbrev everywhere : (ℕ → ℕ → ℕ → Bool) → Bool
everywhere p = all_below 8 (λ k. all_below 8 (λ j. all_below 256 (λ x. p k j x)))

everywhere_sound :
    (p : ℕ → ℕ → ℕ → Bool)
    → everywhere p ≡ true
    → (k j x : ℕ) → k < 8
    → j < 8
    → x < 256
    → p k j x ≡ true
everywhere_sound p h k j x hk hj hx =
    all_below_sound 256 _ (all_below_sound 8 _ (all_below_sound 8 _ h k hk) j hj) x hx

same : Bool → Bool → Bool
same true b = b
same false b = not b

same→eq : (a b : Bool) → same a b ≡ true → a ≡ b
unfolding same
same→eq true b h = sym h
same→eq false true h = h
same→eq false false h = refl

set_byte_table :
    everywhere (λ k j x. same (test_byte (set_byte x k) j) (if k == j then true else test_byte x j))
    ≡ true
unfolding all_below set_byte test_byte same
set_byte_table = refl

unset_byte_table :
    everywhere
      (λ k j x. same (test_byte (unset_byte x k) j) (if k == j then false else test_byte x j))
    ≡ true
unfolding all_below unset_byte test_byte same
unset_byte_table = refl

module _ (k j x : ℕ) (hk : k < 8) (hj : j < 8) (hx : x < 256) where
  pub test_byte-set_byte : test_byte (set_byte x k) j ≡ (if k == j then true else test_byte x j)
  test_byte-set_byte = same→eq _ _ (everywhere_sound _ set_byte_table k j x hk hj hx)

  pub test_byte-unset_byte :
      test_byte (unset_byte x k) j ≡ (if k == j then false else test_byte x j)
  test_byte-unset_byte = same→eq _ _ (everywhere_sound _ unset_byte_table k j x hk hj hx)

pub set_byte-lt : (x k : ℕ) → set_byte x k < 256
unfolding set_byte
set_byte-lt x k = omega arith

pub unset_byte-lt : (x k : ℕ) → unset_byte x k < 256
unfolding unset_byte
unset_byte-lt x k = omega arith
