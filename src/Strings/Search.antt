-- ===== src/Strings/Search.antt =====
-- `strchr`, `strrchr`, `strspn` and `strcspn` of lib/string.c against searches in the characters.
use native.Mathlib.Nat.{add-zero, mod-eq_of_lt}
use native.Mathlib.Numerals.{add-one}
use native.Mathlib.Decide.{ℕ_discrete}
use mint.Base.{
  ℕ, zero, suc, ◌+◌, ◌%◌, ◌<◌, List, [], ◌∷◌, ◌++◌, length, Option, none, some, ◌>>=◌, true, false,
  ◌&&◌, ◌≡◌, ◌≢◌, ◌⊎◌, inl, inr, refl, sym, ap, ◌∙◌, arith, ltb, ◌==◌, if◌then◌else◌, ne→==-false,
  ==_refl,
}
use mint.Memory.{Memory}
use mint.Strings.{strchr, last_char, strrchr, strspn, strcspn}
use mint.Strings.Chars.{IsString, mem_char}
use mint.Strings.Compare.{IsChars}

-- The first place of a character, and the last.
pub first_index : ℕ → List ℕ → Option ℕ
first_index c [] = none
first_index c (d ∷ s) =
    let rest = first_index c s >>= λ i. some (suc i) in if d == c then some 0 else rest

unfoldable pub last_index : ℕ → List ℕ → Option ℕ
last_index c [] = none
last_index c (d ∷ s) = elim (last_index c s) [
  | none ↦ if d == c then some 0 else none
  | some i ↦ some (suc i)
]

-- The pointer to a place of a string.
abbrev pub pointer : ℕ → Option ℕ → Option ℕ
pointer str none = none
pointer str (some i) = some (str + i)

pointer_next :
    (str : ℕ) (o : Option ℕ) → pointer (str + 1) o ≡ pointer str (o >>= λ i. some (suc i))
pointer_next str none = refl
pointer_next str (some i) = ap some (omega arith)

-- On a string `strchr` stops and returns a pointer to the first place of the low byte of `c`, the zero
-- byte at the end included, or `NULL` if there is none. One round more than there are characters is
-- fuel enough.
pub strchr_lem :
    (fuel : ℕ) (m : Memory) (str c : ℕ) (s : List ℕ)
    → IsString m str s
    → length s < fuel
    → strchr fuel m str c ≡ some (pointer str (first_index (c % 256) (s ++ 0 ∷ [])))
unfolding strchr first_index
strchr_lem zero m str c s h lt = absurd (omega arith)
strchr_lem (suc fuel) m str c [] h lt = elim (ℕ_discrete 0 (c % 256)) [
  | yes e ↦ rw (h, ← e) (ap (λ (p : ℕ). some (some p)) (sym (add-zero str)))
  | no ne ↦ rw (h, ne→==-false 0 (c % 256) ne) refl
]
strchr_lem (suc fuel) m str c (d ∷ s) h lt = elim (ℕ_discrete d (c % 256)) [
  | yes e ↦ rw (h.0, e, ==_refl (c % 256)) (ap (λ (p : ℕ). some (some p)) (sym (add-zero str)))
  | no ne ↦
      rw
        (
          h.0,
          ne→==-false d (c % 256) ne,
          ne→==-false d 0 h.1,
          strchr_lem fuel m (str + 1) c s h.2 (omega arith),
        )
        (ap some (pointer_next str (first_index (c % 256) (s ++ 0 ∷ []))))
]

-- The loop of `strrchr` from the address `p` on.
abbrev or_last : ℕ → Option ℕ → Option ℕ → Option ℕ
or_last p none last = last
or_last p (some i) last = some (p + i)

-- A `c` below 128 is equal to a `char` exactly if it is equal to its byte.
char_test : (b c : ℕ) → c < 128 → (ltb b 128 && (b == c)) ≡ (b == c)
char_test b c small = ground arith

-- One more place that the loop has looked at.
or_last_step :
    (p c e : ℕ) (o last : Option ℕ)
    → or_last (p + 1) o (if e == c then some p else last)
      ≡ or_last p (elim o [ none ↦ if e == c then some 0 else none | some i ↦ some (suc i) ]) last
or_last_step p c e (some i) last = ap some (omega arith)
or_last_step p c e none last = elim (ℕ_discrete e c) [
  | yes q ↦ rw (q, ==_refl c) (ap some (sym (add-zero p)))
  | no ne ↦ rw (ne→==-false e c ne) refl
]

last_char_step :
    (fuel : ℕ) (m : Memory) (str c d e : ℕ) (last : Option ℕ)
    → c < 128
    → m str ≡ d
    → d ≢ 0
    → m (str + 1) ≡ e
    → last_char (suc fuel) m str c last
      ≡ last_char fuel m (str + 1) c (if e == c then some (str + 1) else last)
unfolding last_char
last_char_step fuel m str c d e last small h ne h' =
    rw (h, ne→==-false d 0 ne, h', char_test e c small) refl

last_char_lem :
    (fuel : ℕ) (m : Memory) (str c d : ℕ) (s : List ℕ) (last : Option ℕ)
    → IsString m str (d ∷ s)
    → c < 128
    → length s + 1 < fuel
    → last_char fuel m str c last ≡ some (or_last (str + 1) (last_index c (s ++ 0 ∷ [])) last)
unfolding last_char last_index
last_char_lem zero m str c d s last h small lt = absurd (omega arith)
last_char_lem (suc zero) m str c d s last h small lt = absurd (omega arith)
last_char_lem (suc (suc fuel)) m str c d [] last h small lt =
    rw (h.0, ne→==-false d 0 h.1, h.2, char_test 0 c small)
      (ap some (or_last_step (str + 1) c 0 none last))
last_char_lem (suc fuel) m str c d (e ∷ s) last h small lt =
    last_char_step fuel m str c d e last small h.0 h.1 h.2.0
    ∙ last_char_lem fuel m (str + 1) c e s (if e == c then some (str + 1) else last) h.2 small
        (omega arith)
    ∙ ap some (or_last_step (str + 1) c e (last_index c (s ++ 0 ∷ [])) last)

-- On a string that is not empty, `strrchr` returns a pointer to the last place of `c` behind the first
-- character, the zero byte included, and `NULL` if there is none there: it does not look at the first
-- character.
pub strrchr_lem :
    (fuel : ℕ) (m : Memory) (str c d : ℕ) (s : List ℕ)
    → IsString m str (d ∷ s)
    → c < 128
    → length s + 1 < fuel
    → strrchr fuel m str c ≡ some (pointer (str + 1) (last_index c (s ++ 0 ∷ [])))
unfolding strrchr
strrchr_lem fuel m str c d s h small lt =
    last_char_lem fuel m str c d s none h small lt
    ∙ ap some (no_last (str + 1) (last_index c (s ++ 0 ∷ [])))
  where
    no_last : (p : ℕ) (o : Option ℕ) → or_last p o none ≡ pointer p o
    no_last p none = refl
    no_last p (some i) = refl

-- How many characters at the start are among those of `t`, and how many are not.
unfoldable pub span_of : List ℕ → List ℕ → ℕ
span_of t [] = 0
span_of t (c ∷ s) = if mem_char c t then suc (span_of t s) else 0

unfoldable pub span_not_of : List ℕ → List ℕ → ℕ
span_not_of t [] = 0
span_not_of t (c ∷ s) = if mem_char c t then 0 else suc (span_not_of t s)

-- A character other than 0 is found among those of a string, or `strchr` returns `NULL`.
found_or_not :
    (c : ℕ) (t : List ℕ)
    → 0 < c
    → ((mem_char c t ≡ true) × (i : ℕ) × (first_index c (t ++ 0 ∷ []) ≡ some i))
      ⊎ ((mem_char c t ≡ false) × (first_index c (t ++ 0 ∷ []) ≡ none))
unfolding first_index
found_or_not c [] p = inr (refl, rw (ne→==-false 0 c (omega arith)))
found_or_not c (d ∷ t) p = elim (ℕ_discrete d c) [
  | yes e ↦ inl (rw (e, ==_refl c), 0, rw (e, ==_refl c))
  | no ne ↦
      let far = ne→==-false c d (λ e. ne (sym e)) in
      elim (found_or_not c t p) [
        | inl (is, i, at) ↦ inl (rw (far, is), suc i, rw (ne→==-false d c ne, at))
        | inr (is, at) ↦ inr (rw (far, is), rw (ne→==-false d c ne, at))
      ]
]

search_lem :
    (fuel : ℕ) (m : Memory) (p c : ℕ) (t : List ℕ)
    → IsString m p t
    → 0 < c
    → c < 256
    → length t < fuel
    → ((mem_char c t ≡ true) × (at : ℕ) × (strchr fuel m p c ≡ some (some at)))
      ⊎ ((mem_char c t ≡ false) × (strchr fuel m p c ≡ some none))
search_lem fuel m p c t h pos small lt =
    let runs = strchr_lem fuel m p c t h lt in
    let e : c % 256 ≡ c = mod-eq_of_lt small in
    elim (found_or_not c t pos) [
      | inl (is, i, at) ↦ inl (is, p + i, runs ∙ rw (e, at))
      | inr (is, at) ↦ inr (is, runs ∙ rw (e, at))
    ]

module _ (m : Memory) (s2 : ℕ) (t : List ℕ) (k : IsString m s2 t) where
  -- On two strings of bytes `strspn` stops and returns how many characters at the start of the first
  -- are among those of the second. Fuel above the sum of the lengths is enough.
  pub strspn_lem :
      (fuel s1 : ℕ) (s : List ℕ)
      → IsString m s1 s
      → IsChars s
      → length s + length t < fuel
      → strspn fuel m s1 s2 ≡ some (span_of t s)
  unfolding strspn span_of
  strspn_lem zero s1 s h q lt = absurd (omega arith)
  strspn_lem (suc fuel) s1 [] h q lt = rw h refl
  strspn_lem (suc fuel) s1 (c ∷ s) h q lt =
      let ih = strspn_lem fuel (s1 + 1) s h.2 q.2 (omega arith) in
      elim (search_lem fuel m s2 c t k q.0 q.1 (omega arith)) [
        | inl (is, at, runs) ↦
            rw (h.0, ne→==-false c 0 h.1, runs, is, ih) (ap some (add-one (span_of t s)))
        | inr (is, runs) ↦ rw (h.0, ne→==-false c 0 h.1, runs, is) refl
      ]

  -- And `strcspn` returns how many characters at the start are not, under the same conditions.
  pub strcspn_lem :
      (fuel s1 : ℕ) (s : List ℕ)
      → IsString m s1 s
      → IsChars s
      → length s + length t < fuel
      → strcspn fuel m s1 s2 ≡ some (span_not_of t s)
  unfolding strcspn span_not_of
  strcspn_lem zero s1 s h q lt = absurd (omega arith)
  strcspn_lem (suc fuel) s1 [] h q lt = rw h refl
  strcspn_lem (suc fuel) s1 (c ∷ s) h q lt =
      let ih = strcspn_lem fuel (s1 + 1) s h.2 q.2 (omega arith) in
      elim (search_lem fuel m s2 c t k q.0 q.1 (omega arith)) [
        | inl (is, at, runs) ↦ rw (h.0, ne→==-false c 0 h.1, runs, is) refl
        | inr (is, runs) ↦
            rw (h.0, ne→==-false c 0 h.1, runs, is, ih) (ap some (add-one (span_not_of t s)))
      ]
