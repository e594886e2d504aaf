-- ===== src/Strings/Copy.antt =====
-- The copying functions of lib/string.c.
use native.Mathlib.Nat.{add-zero}
use mint.Base.{
  ℕ, zero, suc, ◌+◌, ◌≤◌, ◌<◌, List, [], ◌∷◌, length, some, false, ◌≡◌, ◌≢◌, ◌⊎◌, inl, inr, refl,
  sym, ap₂, ◌∙◌, arith, ◌==◌, ne→==-false,
}
use mint.Memory.{Memory, write, memcpy}
use mint.Memory.Copy.{copied, memcpy_lem}
use mint.Strings.{copy_chars, strcat, strcpy}
use mint.Strings.Chars.{IsString, IsString-write}
use mint.Strings.Length.{end_of_lem}

-- A string at `src` has no byte in common with the range of `n` bytes at `dest`.
abbrev pub AreApart : ℕ → ℕ → ℕ → List ℕ → Type 0
AreApart dest n src s = (dest + n ≤ src) ⊎ (src + length s < dest)

away_from_first :
    (dest n src j : ℕ) (c : ℕ) (s : List ℕ)
    → AreApart dest (suc n) src (c ∷ s)
    → j ≤ length s
    → src + 1 + j ≢ dest
away_from_first dest n src j c s (inl h) le e = absurd (omega arith)
away_from_first dest n src j c s (inr h) le e = absurd (omega arith)

pub next-AreApart :
    (dest n src c : ℕ) (s : List ℕ)
    → AreApart dest (suc n) src (c ∷ s)
    → AreApart (dest + 1) n (src + 1) s
next-AreApart dest n src c s (inl h) = inl (omega arith)
next-AreApart dest n src c s (inr h) = inr (omega arith)

-- The rest of the string is there after its first character has been copied.
pub rest-IsString :
    (m : Memory) (dest n src c v : ℕ) (s : List ℕ)
    → AreApart dest (suc n) src (c ∷ s)
    → IsString m src (c ∷ s)
    → IsString (write m dest v) (src + 1) s
rest-IsString m dest n src c v s apart h =
    IsString-write m dest v (src + 1) s (λ j le. away_from_first dest n src j c s apart le) h.2

pub not_zero : (m : Memory) (src c : ℕ) (s : List ℕ) → IsString m src (c ∷ s) → (m src == 0) ≡ false
not_zero m src c s h = ne→==-false (m src) 0 (λ e. h.1 (sym h.0 ∙ e))

-- The loop copies the characters as `memcpy` does, and stops at the zero byte.
copy_chars_lem :
    (fuel : ℕ) (m : Memory) (dest src : ℕ) (s : List ℕ)
    → IsString m src s
    → length s < fuel
    → AreApart dest (length s) src s
    → copy_chars fuel m dest src
      ≡ some (memcpy m dest src (length s), dest + length s, src + length s)
unfolding copy_chars memcpy
copy_chars_lem zero m dest src s h lt apart = absurd (omega arith)
copy_chars_lem (suc fuel) m dest src [] h lt apart = rw (h, add-zero dest, add-zero src) refl
copy_chars_lem (suc fuel) m dest src (c ∷ s) h lt apart =
    rw
      (
        not_zero m src c s h,
        copy_chars_lem fuel (write m dest (m src)) (dest + 1) (src + 1) s
            (rest-IsString m dest (length s) src c (m src) s apart h) (omega arith)
            (next-AreApart dest (length s) src c s apart),
      )
      (ap₂ (λ (a b : ℕ). some (memcpy (write m dest (m src)) (dest + 1) (src + 1) (length s), a, b))
        (omega arith) (omega arith))

pub no_overlap :
    (dest n src : ℕ) (s : List ℕ)
    → AreApart dest n src s
    → n ≤ length s
    → (dest ≤ src) ⊎ (src + n ≤ dest)
no_overlap dest n src s (inl h) le = inl (omega arith)
no_overlap dest n src s (inr h) le = inr (omega arith)

-- Given a string that the copy does not touch, `strcpy` copies its characters and not its zero byte:
-- what stands behind the copy is what stood there before. It returns the address behind the copy.
pub strcpy_lem :
    (fuel : ℕ) (m : Memory) (dest src : ℕ) (s : List ℕ)
    → IsString m src s
    → length s < fuel
    → AreApart dest (length s) src s
    → (m' : Memory) × (strcpy fuel m dest src ≡ some (dest + length s, m'))
      × ((x : ℕ) → m' x ≡ copied m dest src (length s) x)
      × (m' (dest + length s) ≡ m (dest + length s))
unfolding strcpy
strcpy_lem fuel m dest src s h lt apart =
    let same =
      memcpy_lem m dest src (length s) (no_overlap dest (length s) src s apart (omega arith)) in
    (
      memcpy m dest src (length s),
      rw (copy_chars_lem fuel m dest src s h lt apart) refl,
      same,
      same (dest + length s) ∙ ground arith,
    )

-- `strcat` puts the characters of the second string behind those of the first, and no zero byte behind
-- them.
pub strcat_lem :
    (fuel : ℕ) (m : Memory) (dest src : ℕ) (d s : List ℕ)
    → IsString m dest d
    → IsString m src s
    → length d < fuel
    → length s < fuel
    → AreApart (dest + length d) (length s) src s
    → (m' : Memory) × (strcat fuel m dest src ≡ some (dest, m'))
      × ((x : ℕ) → m' x ≡ copied m (dest + length d) src (length s) x)
      × (m' (dest + length d + length s) ≡ m (dest + length d + length s))
unfolding strcat
strcat_lem fuel m dest src d s g h lt lt' apart =
    let end = dest + length d in
    let same =
      memcpy_lem m end src (length s) (no_overlap end (length s) src s apart (omega arith)) in
    (
      memcpy m end src (length s),
      rw (end_of_lem fuel m dest d g lt, copy_chars_lem fuel m end src s h lt' apart) refl,
      same,
      same (end + length s) ∙ ground arith,
    )
