-- ===== src/Strings/Tokens.antt =====
-- `strtok_r` of lib/string.c on a string of delimiters, a token, and what follows it.
use native.Mathlib.Nat.{add-zero}
use mathlib.Core.List.{append-nil}
use mint.Base.{
  ℕ, ◌+◌, ◌<◌, List, [], ◌∷◌, ◌++◌, length, length-append, Option, none, some, true, false, ◌≡◌,
  refl, sym, ap, ◌∙◌, arith, ne→==-false, ==_refl,
}
use mint.Memory.{Memory, write}
use mint.Strings.{cut_token, strtok_r}
use mint.Strings.Chars.{IsString, IsString-write, mem_char}
use mint.Strings.Compare.{IsChars}
use mint.Strings.Search.{span_of, span_not_of, strspn_lem, strcspn_lem}

-- Every character is a delimiter, and none is.
abbrev pub AllIn : List ℕ → List ℕ → Type 0
AllIn t [] = Unit {0}
AllIn t (c ∷ s) = (mem_char c t ≡ true) × AllIn t s

abbrev pub NoneIn : List ℕ → List ℕ → Type 0
NoneIn t [] = Unit {0}
NoneIn t (c ∷ s) = (mem_char c t ≡ false) × NoneIn t s

-- The end, or a delimiter.
abbrev pub EndsToken : List ℕ → List ℕ → Type 0
EndsToken t [] = Unit {0}
EndsToken t (c ∷ s) = mem_char c t ≡ true

abbrev pub StartsToken : List ℕ → List ℕ → Type 0
StartsToken t [] = Unit {0}
StartsToken t (c ∷ s) = mem_char c t ≡ false

span_of-append : (t d s : List ℕ) → AllIn t d → StartsToken t s → span_of t (d ++ s) ≡ length d
unfolding span_of
span_of-append t [] [] a h = refl
span_of-append t [] (c ∷ s) a h = rw h
span_of-append t (c ∷ d) s a h = rw (a.0, span_of-append t d s a.1 h)

span_not_of-append :
    (t d s : List ℕ) → NoneIn t d → EndsToken t s → span_not_of t (d ++ s) ≡ length d
unfolding span_not_of
span_not_of-append t [] [] a h = refl
span_not_of-append t [] (c ∷ s) a h = rw h
span_not_of-append t (c ∷ d) s a h = rw (a.0, span_not_of-append t d s a.1 h)

-- What stands behind the first characters of a string.
pub behind-IsString :
    (m : Memory) (p : ℕ) (d s : List ℕ) → IsString m p (d ++ s) → IsString m (p + length d) s
behind-IsString m p [] s h = rw (add-zero p) h
behind-IsString m p (c ∷ d) s h =
    let e : p + 1 + length d ≡ p + length (c ∷ d) = omega arith in
    rw e at (behind-IsString m (p + 1) d s h.2)

behind-IsChars : (d s : List ℕ) → IsChars (d ++ s) → IsChars s
behind-IsChars [] s h = h
behind-IsChars (c ∷ d) s h = behind-IsChars d s h.2

-- A zero byte behind the first characters of a string cuts it there.
pub cut-IsString :
    (m : Memory) (p at : ℕ) (d s : List ℕ)
    → p + length d ≡ at
    → IsString m p (d ++ s)
    → IsString (write m at 0) p d
cut-IsString m p at [] s e h = let here : p ≡ at = omega arith in rw (here, ==_refl at) refl
cut-IsString m p at (c ∷ d) s e h =
    (rw (ne→==-false at p (omega arith)) h.0, h.1, cut-IsString m (p + 1) at d s (omega arith) h.2)

-- Of a string of delimiters alone, `strtok_r` returns `NULL`, and it goes on from the empty string.
pub strtok_r_done :
    (fuel : ℕ) (m : Memory) (empty start delimiters : ℕ) (t d : List ℕ)
    → IsString m delimiters t
    → IsString m start d
    → IsChars d
    → AllIn t d
    → length d + length t < fuel
    → strtok_r fuel m empty none delimiters start
      ≡ some (record { token = none; lasts = empty; memory = m })
unfolding strtok_r
strtok_r_done fuel m empty start delimiters t d k h q a lt =
    let all : span_of t d ≡ length d =
      ap (span_of t) (sym (append-nil d)) ∙ span_of-append t d [] a tt in
    let end : m (start + length d) ≡ 0 = behind-IsString m start d [] (rw (append-nil d) h) in
    rw (strspn_lem m delimiters t k fuel start d h q lt, all, end) refl

-- What `strtok_r` does with the byte that ends the token.
pub token_at :
    (fuel : ℕ) (m : Memory) (empty start delimiters x : ℕ) (t d xs rest : List ℕ)
    → IsString m delimiters t
    → IsString m start (d ++ x ∷ (xs ++ rest))
    → IsChars (d ++ x ∷ (xs ++ rest))
    → AllIn t d
    → NoneIn t (x ∷ xs)
    → EndsToken t rest
    → length (d ++ x ∷ (xs ++ rest)) + length t < fuel
    → strtok_r fuel m empty none delimiters start
      ≡ some (cut_token m (start + length d) (start + length d + length (x ∷ xs)))
unfolding strtok_r
token_at fuel m empty start delimiters x t d xs rest k h q a n ends lt =
    let begin = start + length d in
    let after = behind-IsString m start d (x ∷ (xs ++ rest)) h in
    let chars = behind-IsChars d (x ∷ (xs ++ rest)) q in
    let skips : span_of t (d ++ x ∷ (xs ++ rest)) ≡ length d =
      span_of-append t d (x ∷ (xs ++ rest)) a n.0 in
    let takes : span_not_of t (x ∷ (xs ++ rest)) ≡ length (x ∷ xs) =
      span_not_of-append t (x ∷ xs) rest n ends in
    let shorter : length (x ∷ (xs ++ rest)) + length t < fuel =
      omega (arith, length-append d (x ∷ (xs ++ rest))) in
    rw
      (
        strspn_lem m delimiters t k fuel start (d ++ x ∷ (xs ++ rest)) h q lt,
        skips,
        ne→==-false (m begin) 0 (λ e. after.1 (sym after.0 ∙ e)),
        strcspn_lem m delimiters t k fuel begin (x ∷ (xs ++ rest)) after chars shorter,
        takes,
      )
      refl

-- Where `strtok_r` starts: at `s`, or at `*lasts` if that is `NULL`.
abbrev pub start_of : Option ℕ → ℕ → ℕ
start_of none lasts = lasts
start_of (some s) lasts = s

-- What `strtok_r` does with delimiters, a token and a delimiter behind it, if `s` is `NULL`.
from_lasts :
    (fuel : ℕ) (m : Memory) (empty start delimiters x e : ℕ) (t d xs rest : List ℕ)
    → IsString m delimiters t
    → IsString m start (d ++ x ∷ (xs ++ e ∷ rest))
    → IsChars (d ++ x ∷ (xs ++ e ∷ rest))
    → AllIn t d
    → NoneIn t (x ∷ xs)
    → mem_char e t ≡ true
    → length (d ++ x ∷ (xs ++ e ∷ rest)) + length t < fuel
    → let begin = start + length d in
      let end = begin + length (x ∷ xs) in
      (m' : Memory) × (strtok_r fuel m empty none delimiters start
        ≡ some (record { token = some begin; lasts = end + 1; memory = m' }))
      × IsString m' begin (x ∷ xs)
      × IsString m' (end + 1) rest
from_lasts fuel m empty start delimiters x e t d xs rest k h q a n is lt =
    let begin = start + length d in
    let end = begin + length (x ∷ xs) in
    let token = behind-IsString m start d (x ∷ (xs ++ e ∷ rest)) h in
    let last = behind-IsString m begin (x ∷ xs) (e ∷ rest) token in
    (
      write m end 0,
      token_at fuel m empty start delimiters x t d xs (e ∷ rest) k h q a n is lt
          ∙ ap some (rw (ne→==-false (m end) 0 (λ z. last.1 (sym last.0 ∙ z))) refl),
      cut-IsString m begin end (x ∷ xs) (e ∷ rest) refl token,
      IsString-write m end 0 (end + 1) rest (λ j le z. absurd (omega arith)) last.2,
    )

-- Of delimiters, a token and a delimiter behind it, from `s` on or from `*lasts` if that is `NULL`, `strtok_r`
-- returns the token, which it ends with a zero byte in place of that delimiter, and it goes on from the
-- string behind.
pub strtok_r-IsString :
    (fuel : ℕ) (m : Memory) (empty : ℕ) (s : Option ℕ) (lasts delimiters x e : ℕ)
    (t d xs rest : List ℕ)
    → IsString m delimiters t
    → IsString m (start_of s lasts) (d ++ x ∷ (xs ++ e ∷ rest))
    → IsChars (d ++ x ∷ (xs ++ e ∷ rest))
    → AllIn t d
    → NoneIn t (x ∷ xs)
    → mem_char e t ≡ true
    → length (d ++ x ∷ (xs ++ e ∷ rest)) + length t < fuel
    → let begin = start_of s lasts + length d in
      let end = begin + length (x ∷ xs) in
      (m' : Memory) × (strtok_r fuel m empty s delimiters lasts
        ≡ some (record { token = some begin; lasts = end + 1; memory = m' }))
      × IsString m' begin (x ∷ xs)
      × IsString m' (end + 1) rest
unfolding strtok_r
strtok_r-IsString fuel m empty none lasts delimiters x e t d xs rest k h q a n is lt =
    from_lasts fuel m empty lasts delimiters x e t d xs rest k h q a n is lt
strtok_r-IsString fuel m empty (some s) lasts delimiters x e t d xs rest k h q a n is lt =
    from_lasts fuel m empty s delimiters x e t d xs rest k h q a n is lt

-- Of delimiters and a token that ends the string, it returns the token, writes nothing, and goes on from
-- the end.
pub strtok_r_last :
    (fuel : ℕ) (m : Memory) (empty start delimiters x : ℕ) (t d xs : List ℕ)
    → IsString m delimiters t
    → IsString m start (d ++ x ∷ xs)
    → IsChars (d ++ x ∷ xs)
    → AllIn t d
    → NoneIn t (x ∷ xs)
    → length (d ++ x ∷ xs) + length t < fuel
    → let begin = start + length d in
      strtok_r fuel m empty none delimiters start
      ≡ some (record { token = some begin; lasts = begin + length (x ∷ xs); memory = m })
strtok_r_last fuel m empty start delimiters x t d xs k h q a n lt =
    let begin = start + length d in
    let token = behind-IsString m start d (x ∷ xs) h in
    let same = append-nil xs in
    let last : m (begin + length (x ∷ xs)) ≡ 0 =
      behind-IsString m begin (x ∷ xs) [] (rw same token) in
    token_at fuel m empty start delimiters x t d xs [] k (rw same h) (rw same q) a n tt (rw same lt)
    ∙ ap some (rw last refl)
