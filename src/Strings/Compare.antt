-- ===== src/Strings/Compare.antt =====
-- `strcmp` and `strncmp` of lib/string.c against a comparison of the characters.
use mathlib.Core.Option.{some-injective}
use mint.Base.{
  ◌↔◌, ℕ, zero, suc, ◌+◌, ◌<◌, List, [], ◌∷◌, ◌++◌, length, some, ◌≡◌, refl, sym, ap, ap₂, ◌∙◌,
  arith, ◌==◌, if◌then◌else◌, ne→==-false, ==_refl, ℤ, pos,
}
use native.Mathlib.Decide.{ℕ_discrete}
use mint.Memory.{Memory}
use mint.Strings.{char_difference, strcmp, strncmp}
use mint.Strings.Chars.{IsString}

-- The difference at the first place where the two are not the same; the end counts as 0.
pub compare_chars : List ℕ → List ℕ → ℤ
compare_chars [] [] = pos 0
compare_chars [] (d ∷ t) = char_difference 0 d
compare_chars (c ∷ s) [] = char_difference c 0
compare_chars (c ∷ s) (d ∷ t) = if c == d then compare_chars s t else char_difference c d

-- On two strings `strcmp` stops and returns the difference at the first place where they are not the
-- same, and 0 if there is none; one round more than the first has characters is fuel enough.
pub strcmp_lem :
    (fuel : ℕ) (m : Memory) (str1 str2 : ℕ) (s t : List ℕ)
    → IsString m str1 s
    → IsString m str2 t
    → length s < fuel
    → strcmp fuel m str1 str2 ≡ some (compare_chars s t)
unfolding strcmp compare_chars
strcmp_lem zero m str1 str2 s t h k lt = absurd (omega arith)
strcmp_lem (suc fuel) m str1 str2 [] [] h k lt = rw (h, k) refl
strcmp_lem (suc fuel) m str1 str2 [] (d ∷ t) h k lt = rw (h, k.0) refl
strcmp_lem (suc fuel) m str1 str2 (c ∷ s) [] h k lt = rw (h.0, k, ne→==-false c 0 h.1) refl
strcmp_lem (suc fuel) m str1 str2 (c ∷ s) (d ∷ t) h k lt = elim (ℕ_discrete c d) [
  | yes e ↦
      rw (h.0, k.0, ne→==-false c 0 h.1, e, ==_refl d)
        (strcmp_lem fuel m (str1 + 1) (str2 + 1) s t h.2 k.2 (omega arith))
  | no ne ↦ rw (h.0, k.0, ne→==-false c 0 h.1, ne→==-false c d ne) refl
]

-- Characters are bytes other than 0.
abbrev pub IsChars : List ℕ → Type 0
IsChars [] = Unit {0}
IsChars (c ∷ s) = (0 < c) × (c < 256) × IsChars s

eq_of_char_difference : (a b : ℕ) → a < 256 → b < 256 → char_difference a b ≡ pos 0 → a ≡ b
eq_of_char_difference a b p q h = ground (arith, h)

eq_of_compare_chars : (s t : List ℕ) → IsChars s → IsChars t → compare_chars s t ≡ pos 0 → s ≡ t
unfolding compare_chars
eq_of_compare_chars [] [] p q h = refl
eq_of_compare_chars [] (d ∷ t) p q h =
    absurd (omega (arith, q.0, eq_of_char_difference 0 d (omega arith) q.1 h))
eq_of_compare_chars (c ∷ s) [] p q h =
    absurd (omega (arith, p.0, eq_of_char_difference c 0 p.1 (omega arith) h))
eq_of_compare_chars (c ∷ s) (d ∷ t) p q h = elim (ℕ_discrete c d) [
  | yes e ↦ ap₂ ◌∷◌ e (eq_of_compare_chars s t p.2 q.2 (rw (e, ==_refl d) at h))
  | no ne ↦ absurd (ne (eq_of_char_difference c d p.1 q.1 (rw (ne→==-false c d ne) at h)))
]

compare_chars_self : (s : List ℕ) → compare_chars s s ≡ pos 0
unfolding compare_chars
compare_chars_self [] = refl
compare_chars_self (c ∷ s) = rw (==_refl c) (compare_chars_self s)

-- On two strings of bytes, `strcmp` returns 0 exactly if they have the same characters.
pub strcmp_iff :
    (fuel : ℕ) (m : Memory) (str1 str2 : ℕ) (s t : List ℕ)
    → IsString m str1 s
    → IsString m str2 t
    → IsChars s
    → IsChars t
    → length s < fuel
    → (strcmp fuel m str1 str2 ≡ some (pos 0)) ↔ (s ≡ t)
strcmp_iff fuel m str1 str2 s t h k p q lt = (
  λ e.
      eq_of_compare_chars s t p q
        (some-injective _ _ (sym (strcmp_lem fuel m str1 str2 s t h k lt) ∙ e)),
  λ e.
      strcmp_lem fuel m str1 str2 s t h k lt
      ∙ ap (λ u. some (compare_chars s u)) (sym e)
      ∙ ap some (compare_chars_self s),
)

-- If the first string is a beginning of the second, `strncmp` returns 0, whatever `n` is: it does not
-- see that the second goes on.
pub strncmp_prefix :
    (m : Memory) (str1 str2 n : ℕ) (s t : List ℕ)
    → IsString m str1 s
    → IsString m str2 (s ++ t)
    → strncmp m str1 str2 n ≡ pos 0
unfolding strncmp
strncmp_prefix m str1 str2 zero s t h k = refl
strncmp_prefix m str1 str2 (suc n) [] t h k = rw h refl
strncmp_prefix m str1 str2 (suc n) (c ∷ s) t h k =
    rw (h.0, k.0, ne→==-false c 0 h.1, ==_refl c)
      (strncmp_prefix m (str1 + 1) (str2 + 1) n s t h.2 k.2)
