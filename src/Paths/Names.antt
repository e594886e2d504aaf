-- ===== src/Paths/Names.antt =====
-- The names of a path, and what `strtok_r` makes of the first one.
use mathlib.Core.List.{append-nil}
use native.Mathlib.Nat.{add-zero}
use mint.Base.{
  ℕ, ◌+◌, ◌≤◌, ◌<◌, List, [], ◌∷◌, ◌++◌, length, length-append, some, ◌≡◌, ◌⊎◌, inl, inr, refl, ap,
  ◌∙◌, arith, ne→==-false,
}
use mint.Memory.{Memory, write}
use mint.Strings.{strtok_r}
use mint.Strings.Chars.{IsString, IsString-write}
use mint.Strings.Compare.{IsChars}
use mint.Strings.Tokens.{NoneIn, behind-IsString, cut-IsString, strtok_r_last, token_at}
use mint.Vfs.{dentry_name_max}
use mint.Paths.{slash_char}
use mint.Paths.Parts.{HasNoSlash}

-- The names with a slash between each two.
abbrev pub join : List (List ℕ) → List ℕ
join [] = []
join (name ∷ []) = name
join (name ∷ next ∷ names) = name ++ slash_char ∷ join (next ∷ names)

-- A name that fits in a dentry.
abbrev pub IsName : List ℕ → Type 0
IsName [] = ⊥
IsName (c ∷ s) = IsChars (c ∷ s) × HasNoSlash (c ∷ s) × (length (c ∷ s) < dentry_name_max)

abbrev pub AreNames : List (List ℕ) → Type 0
AreNames [] = Unit {0}
AreNames (name ∷ names) = IsName name × AreNames names

NoneIn-slash : (s : List ℕ) → HasNoSlash s → NoneIn (slash_char ∷ []) s
NoneIn-slash [] h = tt
NoneIn-slash (c ∷ s) h = (rw (ne→==-false c slash_char h.0) refl, NoneIn-slash s h.1)

IsChars-append : (s t : List ℕ) → IsChars s → IsChars t → IsChars (s ++ t)
IsChars-append [] t h k = k
IsChars-append (c ∷ s) t h k = (h.0, h.1, IsChars-append s t h.2 k)

pub name-IsChars : (s : List ℕ) → IsName s → IsChars s
name-IsChars [] h = absurd h
name-IsChars (c ∷ s) h = h.0

join-IsChars : (names : List (List ℕ)) → AreNames names → IsChars (join names)
join-IsChars [] h = tt
join-IsChars (name ∷ []) h = name-IsChars name h.0
join-IsChars (name ∷ next ∷ names) h =
    IsChars-append name (slash_char ∷ join (next ∷ names)) (name-IsChars name h.0)
      (omega arith, omega arith, join-IsChars (next ∷ names) h.1)

pub length-join :
    (name : List ℕ) (names : List (List ℕ)) → length name ≤ length (join (name ∷ names))
length-join name [] = omega arith
length-join name (next ∷ names) =
    omega (arith, length-append name (slash_char ∷ join (next ∷ names)))

-- There are at most as many names as characters.
pub length-names : (names : List (List ℕ)) → AreNames names → length names ≤ length (join names) + 1
length-names [] oks = omega arith
length-names (name ∷ []) oks = omega arith
length-names (name ∷ next ∷ names) oks = omega (
  arith,
  length-append name (slash_char ∷ join (next ∷ names)),
  length-names (next ∷ names) oks.1,
)

module _ (chars empty slash : ℕ) where
  -- What `strtok_r` makes of the first name of a path.
  pub record IsCut (m : Memory) (str : ℕ) (name : List ℕ) (names : List (List ℕ)) (lasts : ℕ)
      (m' : Memory) : Type 0 where
    pub returns :
        strtok_r chars m empty (some str) slash 0
        ≡ some (record { token = some str; lasts = lasts; memory = m' })
    pub first : IsString m' str name
    pub rest : IsString m' lasts (join names)
    pub start : str ≤ lasts
    pub end : lasts + length (join names) ≡ str + length (join (name ∷ names))
    pub outside : (x : ℕ) → (x < str) ⊎ (str + length (join (name ∷ names)) ≤ x) → m' x ≡ m x

  pub first_name-IsCut :
      (m : Memory) (str : ℕ) (name : List ℕ) (names : List (List ℕ))
      → IsString m slash (slash_char ∷ [])
      → IsString m str (join (name ∷ names))
      → IsName name
      → AreNames names
      → length (join (name ∷ names)) + 1 < chars
      → (lasts : ℕ) × (m' : Memory) × IsCut m str name names lasts m'
  unfolding strtok_r
  first_name-IsCut m str [] names sl is ok oks lt = absurd ok
  first_name-IsCut m str (c ∷ xs) [] sl is ok oks lt =
      let e =
        strtok_r_last chars m empty str slash c (slash_char ∷ []) [] xs sl is ok.0 tt
          (NoneIn-slash (c ∷ xs) ok.1) lt in
      (
        str + length (c ∷ xs),
        m,
        record {
          returns = rw (add-zero str) at e;
          first = is;
          rest = behind-IsString m str (c ∷ xs) [] (rw (append-nil xs) is);
          start = omega arith;
          end = add-zero (str + length (c ∷ xs));
          outside = λ x out. refl;
        },
      )
  first_name-IsCut m str (c ∷ xs) (next ∷ names) sl is ok oks lt =
      let whole = join (next ∷ names) in
      let e =
        token_at chars m empty str slash c (slash_char ∷ []) [] xs (slash_char ∷ whole) sl is
          (join-IsChars ((c ∷ xs) ∷ next ∷ names) (ok, oks)) tt (NoneIn-slash (c ∷ xs) ok.1) refl
          lt in
      let last = behind-IsString m str (c ∷ xs) (slash_char ∷ whole) is in
      let at = str + length (c ∷ xs) in
      let size = length-append xs (slash_char ∷ whole) in
      (
        at + 1,
        write m at 0,
        record {
          returns = rw (add-zero str) at e ∙ ap some (rw last.0 refl);
          first = cut-IsString m str at (c ∷ xs) (slash_char ∷ whole) refl is;
          rest = IsString-write m at 0 (at + 1) whole (λ j le z. absurd (omega arith)) last.2;
          start = omega arith;
          end = omega (arith, size);
          outside = λ x out.
              rw
                (ne→==-false at x (λ z. elim out [
                  | inl lt' ↦ absurd (omega arith)
                  | inr le ↦ absurd (omega (arith, size))
                ]))
                refl;
        },
      )
