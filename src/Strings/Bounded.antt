-- ===== src/Strings/Bounded.antt =====
-- `strncpy`, `strdup` and `strncat` of lib/string.c.
use native.Mathlib.Nat.{add-zero}
use mint.Base.{
  ℕ, zero, suc, ◌+◌, ◌-◌, ◌^◌, ◌≤◌, ◌<◌, List, [], ◌∷◌, length, some, ◌&&◌, ◌≡◌, ◌⊎◌, inl, inr,
  refl, sym, ap, ap₂, ◌∙◌, arith, ltb, ◌==◌, if◌then◌else◌,
}
use mint.Memory.{Memory, write, memcpy}
use mint.Memory.Copy.{copied, memcpy_lem}
use mint.Strings.{copy_at_most, clear_at, strncpy, strdup}
use mint.Strings.Chars.{IsString}
use mint.Strings.Length.{strlen_lem}
use mint.Strings.Copy.{AreApart, rest-IsString, next-AreApart, no_overlap, not_zero}

-- The first loop with a string that is shorter than `n`, and with one that is not.
copy_short :
    (m : Memory) (dest src n : ℕ) (s : List ℕ)
    → IsString m src s
    → length s < n
    → AreApart dest (length s) src s
    → copy_at_most m dest src n ≡ (memcpy m dest src (length s), dest + length s, n - 1 - length s)
unfolding copy_at_most memcpy
copy_short m dest src zero s h lt apart = absurd (omega arith)
copy_short m dest src (suc n) [] h lt apart =
    rw (h, add-zero) (ap (λ (k : ℕ). (m, dest, k)) (omega arith))
copy_short m dest src (suc n) (c ∷ s) h lt apart =
    rw
      (
        not_zero m src c s h,
        copy_short (write m dest (m src)) (dest + 1) (src + 1) n s
            (rest-IsString m dest (length s) src c (m src) s apart h) (omega arith)
            (next-AreApart dest (length s) src c s apart),
      )
      (ap₂ (λ (a b : ℕ). (memcpy (write m dest (m src)) (dest + 1) (src + 1) (length s), a, b))
        (omega arith) (omega arith))

copy_long :
    (m : Memory) (dest src n : ℕ) (s : List ℕ)
    → IsString m src s
    → n ≤ length s
    → AreApart dest n src s
    → copy_at_most m dest src n ≡ (memcpy m dest src n, dest + n, 2 ^ 64 - 1)
unfolding copy_at_most memcpy
copy_long m dest src zero s h le apart = rw (add-zero dest) refl
copy_long m dest src (suc n) [] h le apart = absurd (omega arith)
copy_long m dest src (suc n) (c ∷ s) h le apart =
    rw
      (
        not_zero m src c s h,
        copy_long (write m dest (m src)) (dest + 1) (src + 1) n s
            (rest-IsString m dest n src c (m src) s apart h) (omega arith)
            (next-AreApart dest n src c s apart),
      )
      (ap (λ (a : ℕ). (memcpy (write m dest (m src)) (dest + 1) (src + 1) n, a, 2 ^ 64 - 1))
        (omega arith))

-- The second loop writes one byte, if it runs at all.
clear_at_lem :
    (n : ℕ) (m : Memory) (dest x : ℕ)
    → clear_at n m dest x ≡ (if n == 0 then m x else write m dest 0 x)
unfolding clear_at
clear_at_lem zero m dest x = refl
clear_at_lem (suc n) m dest x = ground (arith, clear_at_lem n (write m dest 0) dest x)

-- With a string of at least `n` characters, `strncpy` copies `n` of them and then writes a zero byte
-- behind the `n` bytes that it was given: the count has wrapped when the second loop starts.
pub strncpy_past :
    (m : Memory) (dest src n : ℕ) (s : List ℕ)
    → IsString m src s
    → n ≤ length s
    → AreApart dest n src s
    → let (p, m') = strncpy m dest src n in
      (p ≡ dest + n) × ((x : ℕ) → m' x ≡ (if x == dest + n then 0 else copied m dest src n x))
unfolding strncpy
strncpy_past m dest src n s h le apart =
    let e = copy_long m dest src n s h le apart in
    let same = memcpy_lem m dest src n (no_overlap dest n src s apart le) in
    (
      ap (λ t. t.1) e,
      λ x.
          rw e
            (clear_at_lem (2 ^ 64 - 1) (memcpy m dest src n) (dest + n) x ∙ ground (arith, same x)),
    )

-- With a string that is shorter than `n`, `strncpy` copies its characters, and a zero byte behind them
-- if the string is shorter by two or more. The other bytes it leaves as they were.
pub strncpy_short :
    (m : Memory) (dest src n : ℕ) (s : List ℕ)
    → IsString m src s
    → length s < n
    → AreApart dest (length s) src s
    → let (p, m') = strncpy m dest src n in
      (p ≡ dest + length s)
      × ((x : ℕ)
          → m' x ≡ (
              if x == dest + length s && ltb (length s + 1) n
              then 0
              else copied m dest src (length s) x))
unfolding strncpy
strncpy_short m dest src n s h lt apart =
    let e = copy_short m dest src n s h lt apart in
    let same =
      memcpy_lem m dest src (length s) (no_overlap dest (length s) src s apart (omega arith)) in
    (
      ap (λ t. t.1) e,
      λ x. rw e (
          clear_at_lem (n - 1 - length s) (memcpy m dest src (length s)) (dest + length s) x
          ∙ ground (arith, same x)),
    )

-- Bytes that are the characters of a string, and a zero byte, are that string.
pub copied-IsString :
    (m m' : Memory) (dest src : ℕ) (s : List ℕ)
    → IsString m src s
    → ((j : ℕ) → j < length s → m' (dest + j) ≡ m (src + j))
    → m' (dest + length s) ≡ 0
    → IsString m' dest s
copied-IsString m m' dest src [] h same z = rw (add-zero dest) at z
copied-IsString m m' dest src (c ∷ s) h same z = (
  ap m' (sym (add-zero dest)) ∙ same 0 (omega arith) ∙ ap m (add-zero src) ∙ h.0,
  h.1,
  copied-IsString m m' (dest + 1) (src + 1) s h.2
      (λ j lt. ap m' (omega arith) ∙ same (suc j) (omega arith) ∙ ap m (omega arith))
      (ap m' (omega arith) ∙ z),
)

copied_at :
    (m : Memory) (dest src n j : ℕ)
    → j < n
    → (if dest + j == dest + n then 0 else copied m dest src n (dest + j)) ≡ m (src + j)
copied_at m dest src n j lt =
    let e : dest + j - dest ≡ j = omega arith in ground (arith, ap (λ (i : ℕ). m (src + i)) e)

-- `strdup` of a string that the new block does not touch gives a string with the same characters,
-- and changes nothing outside the block.
pub strdup-IsString :
    (fuel : ℕ) (m : Memory) (ret str : ℕ) (s : List ℕ)
    → IsString m str s
    → length s < fuel
    → AreApart ret (length s) str s
    → (m' : Memory) × (strdup fuel m ret str ≡ some (ret, m'))
      × IsString m' ret s
      × ((x : ℕ) → (x < ret) ⊎ (ret + length s < x) → m' x ≡ m x)
unfolding strdup
strdup-IsString fuel m ret str s h lt apart =
    let m' = (strncpy m ret str (length s)).1 in
    let (p, bytes) = strncpy_past m ret str (length s) s h (omega arith) apart in
    (
      m',
      rw (strlen_lem fuel m str s h lt) refl,
      copied-IsString m m' ret str s h
          (λ j lt'. bytes (ret + j) ∙ copied_at m ret str (length s) j lt')
          (bytes (ret + length s) ∙ ground arith),
      λ x out. bytes x ∙ outside_block x ret (length s) out,
    )
  where
    outside_block :
        (x at n : ℕ)
        → (x < at) ⊎ (at + n < x)
        → (if x == at + n then 0 else copied m at str n x) ≡ m x
    outside_block x at n (inl lt) = ground arith
    outside_block x at n (inr lt) = ground arith
