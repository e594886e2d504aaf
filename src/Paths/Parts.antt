-- ===== src/Paths/Parts.antt =====
-- `dirname` and `basename` of fs/path.c.
use native.Mathlib.Decide.{ℕ_discrete}
use native.Mathlib.Nat.{add-zero}
use mint.Base.{
  ℕ, zero, suc, ◌+◌, ◌-◌, ◌≤◌, ◌<◌, List, [], ◌∷◌, ◌++◌, length, length-append, some, ◌≡◌, ◌⊎◌, inl,
  inr, ◌≢◌, refl, sym, ap, ◌∙◌, arith, ◌==◌, ne→==-false, if◌then◌else◌,
}
use mint.Memory.{Memory, write}
use mint.Strings.Chars.{IsString}
use mint.Strings.Length.{strlen_lem}
use mint.Strings.Copy.{AreApart}
use mint.Strings.Tokens.{behind-IsString, cut-IsString}
use mint.Strings.Bounded.{strdup-IsString}
use mint.Paths.{slash_char, strip_slashes, last_slash, dir_part, dirname, base_from, basename}

-- No character is a slash.
abbrev pub HasNoSlash : List ℕ → Type 0
HasNoSlash [] = Unit {0}
HasNoSlash (c ∷ s) = (c ≢ slash_char) × HasNoSlash s

no_slash_at :
    (m : Memory) (p : ℕ) (s : List ℕ)
    → IsString m p s
    → HasNoSlash s
    → (i : ℕ) → i < length s
    → m (p + i) ≢ slash_char
no_slash_at m p [] is plain i lt e = absurd (omega arith)
no_slash_at m p (c ∷ s) is plain zero lt e = plain.0 (sym is.0 ∙ ap m (sym (add-zero p)) ∙ e)
no_slash_at m p (c ∷ s) is plain (suc i) lt e =
    no_slash_at m (p + 1) s is.2 plain.1 i (omega arith) (ap m (omega arith) ∙ e)

-- The second loop stops at the last slash.
last_slash-at :
    (m : Memory) (path k n : ℕ)
    → k ≤ n
    → m (path + k) ≡ slash_char
    → ((i : ℕ) → k < i → i ≤ n → m (path + i) ≢ slash_char)
    → last_slash m path n ≡ some k
unfolding last_slash
last_slash-at m path k zero le e away =
    let start : path + k ≡ path = omega arith in
    let first : 0 ≡ k = omega arith in rw (ap m (sym start) ∙ e) (ap some first)
last_slash-at m path k (suc n) le e away = elim (ℕ_discrete k (suc n)) [
  | yes same ↦ rw (ap (λ (i : ℕ). m (path + i)) (sym same) ∙ e) (ap some (sym same))
  | no ne ↦
      rw (ne→==-false (m (path + suc n)) slash_char (away (suc n) (omega arith) (omega arith)))
        (last_slash-at m path k n (omega arith) e (λ i lt le'. away i lt (omega arith)))
]

strip_slashes-none :
    (m : Memory) (path n : ℕ)
    → m (path + suc n) ≢ slash_char
    → strip_slashes m path (suc n) ≡ (m, some (suc n))
unfolding strip_slashes
strip_slashes-none m path n ne = rw (ne→==-false (m (path + suc n)) slash_char ne) refl

-- What is left of a path that ends in a name, with its last slash at `suc k`.
dir_part_lem :
    (m : Memory) (path slash k n : ℕ)
    → suc k < n
    → m (path + suc k) ≡ slash_char
    → ((i : ℕ) → suc k < i → i ≤ n → m (path + i) ≢ slash_char)
    → dir_part path slash (strip_slashes m path n) ≡ (path, write m (path + suc k) 0)
dir_part_lem m path slash k zero lt e away = absurd (omega arith)
dir_part_lem m path slash k (suc n) lt e away =
    rw
      (
        strip_slashes-none m path n (away (suc n) (omega arith) (omega arith)),
        last_slash-at m path (suc k) (suc n) (omega arith) e away,
      )
      refl

-- Of a path that has a directory part, a slash, and a name without slashes, `dirname` returns the
-- directory part, in a new block that does not touch the path, and changes nothing else. The part may not be empty, nor the name.
pub dirname-IsString :
    (fuel : ℕ) (m : Memory) (slash ret original c b : ℕ) (d s : List ℕ)
    → IsString m original ((c ∷ d) ++ (slash_char ∷ b ∷ s))
    → HasNoSlash (b ∷ s)
    → length ((c ∷ d) ++ (slash_char ∷ b ∷ s)) < fuel
    → AreApart ret
        (length ((c ∷ d) ++ (slash_char ∷ b ∷ s)))
        original
        ((c ∷ d) ++ (slash_char ∷ b ∷ s))
    → 0 < ret
    → (m' : Memory) × (dirname fuel m slash ret original ≡ some (ret, m'))
      × IsString m' ret (c ∷ d)
      × ((x : ℕ) → (x < ret) ⊎ (ret + length ((c ∷ d) ++ (slash_char ∷ b ∷ s)) < x) → m' x ≡ m x)
unfolding dirname
dirname-IsString fuel m slash ret original c b d s is plain enough apart positive =
    let whole = (c ∷ d) ++ (slash_char ∷ b ∷ s) in
    let (m₁, e, is', same) = strdup-IsString fuel m ret original whole is enough apart in
    let tail = behind-IsString m₁ ret (c ∷ d) (slash_char ∷ b ∷ s) is' in
    let size : length whole ≡ length (c ∷ d) + suc (suc (length s)) =
      length-append (c ∷ d) (slash_char ∷ b ∷ s) in
    let k = length (c ∷ d) in
    let n = k + suc (length s) in
    let last : length whole - 1 ≡ n = omega (arith, size) in
    let away : (i : ℕ) → k < i → i ≤ n → m₁ (ret + i) ≢ slash_char = λ i lt le e.
      no_slash_at m₁ (ret + k + 1) (b ∷ s) tail.2 plain (i - k - 1) (omega arith)
        (ap m₁ (omega arith) ∙ e) in
    (
      write m₁ (ret + k) 0,
      rw
          (
            e,
            ne→==-false ret 0 (λ z. absurd (omega (arith, z, positive))),
            ne→==-false (m₁ ret) 0 (λ z. is'.1 (sym is'.0 ∙ z)),
            strlen_lem fuel m₁ ret whole is' enough,
            last,
          )
          (ap some (dir_part_lem m₁ ret slash (length d) n (omega arith) tail.0 away)),
      cut-IsString m₁ ret (ret + k) (c ∷ d) (slash_char ∷ b ∷ s) refl is',
      λ x out.
          rw
            (ne→==-false (ret + k) x (λ z. elim out [
              | inl lt ↦ absurd (omega (arith, z, lt))
              | inr lt ↦ absurd (omega (arith, z, lt, size))
            ]))
            (same x out),
    )

-- Without a slash, the base stays where it is.
base_from-none :
    (fuel : ℕ) (m : Memory) (name base : ℕ) (s : List ℕ)
    → IsString m name s
    → HasNoSlash s
    → length s < fuel
    → base_from fuel m name base ≡ some base
unfolding base_from
base_from-none zero m name base s is plain lt = absurd (omega arith)
base_from-none (suc fuel) m name base [] is plain lt = rw is refl
base_from-none (suc fuel) m name base (c ∷ s) is plain lt =
    rw (is.0, ne→==-false c 0 is.1, ne→==-false c slash_char plain.0)
      (base_from-none fuel m (name + 1) base s is.2 plain.1 (omega arith))

-- With one, the base ends up behind the last.
base_from-last :
    (fuel : ℕ) (m : Memory) (name base : ℕ) (d s : List ℕ)
    → IsString m name (d ++ (slash_char ∷ s))
    → HasNoSlash s
    → length (d ++ (slash_char ∷ s)) < fuel
    → base_from fuel m name base ≡ some (name + length d + 1)
unfolding base_from
base_from-last zero m name base d s is plain lt = absurd (omega arith)
base_from-last (suc fuel) m name base [] s is plain lt =
    rw is.0 (
      base_from-none fuel m (name + 1) (name + 1) s is.2 plain (omega arith)
      ∙ ap some (omega arith))
base_from-last (suc fuel) m name base (c ∷ d) s is plain lt =
    rw (is.0, ne→==-false c 0 is.1)
      (base_from-last fuel m (name + 1) (if c == slash_char then name + 1 else base) d s is.2 plain
          (omega arith)
        ∙ ap some (omega arith))

-- On a path with a slash, `basename` stops, and returns a pointer behind the last one.
pub basename_lem :
    (fuel : ℕ) (m : Memory) (name : ℕ) (d s : List ℕ)
    → IsString m name (d ++ (slash_char ∷ s))
    → HasNoSlash s
    → length (d ++ (slash_char ∷ s)) < fuel
    → basename fuel m name ≡ some (name + length d + 1)
basename_lem fuel m name d s is plain lt = base_from-last fuel m name name d s is plain lt
