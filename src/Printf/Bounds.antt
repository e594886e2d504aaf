-- ===== src/Printf/Bounds.antt =====
-- `vsnprintf` of lib/printf.c against `vsprintf`, and where the two write.
use mint.Base.{
  ℕ, zero, suc, ◌+◌, ◌≤◌, ◌<◌, List, [], ◌∷◌, ◌++◌, length, length-append, take, Option, none, some,
  ◌>>=◌, ◌≡◌, ◌⊎◌, inl, inr, refl, sym, ap, ◌∙◌, arith, ◌==◌, min, Bool-cases, ℤ,
}
use mint.Math.{int_of}
use mint.Printf.{
  PrintfData, zero_flag, width_digits, long_flags, width_of, directive, Run, done, fault,
  printf_format, Printed, printed, broken, unfinished, vsprintf, vsnprintf,
}
use mint.Printf.Output.{
  free, cut, IsSame, both_convert, putcf-free, putcf-cut, zero_flag-length, width_digits-length,
  long_flags-length, length-take,
}

module _ (k : ℕ) (text : ℕ → List ℕ) (stack : List ℕ → List ℕ) where
  -- How a directive ends: what is left of the format is no longer than before.
  abbrev IsShorter :
      ℕ → Option (PrintfData × List ℕ × List ℕ) → Option (PrintfData × List ℕ × List ℕ) → Type 0
  IsShorter n a b =
      ((a ≡ none) × (b ≡ none))
      ⊎ ((w args pos : List ℕ) × (length pos ≤ n)
          × (a ≡ some (free w, args, pos))
          × (b ≡ some (cut k w, args, pos)))

  both_width :
      (o : Option ℕ) (n : ℕ) {f g : ℕ → Option (PrintfData × List ℕ × List ℕ)}
      → ((padding : ℕ) → IsShorter n (f padding) (g padding))
      → IsShorter n (o >>= f) (o >>= g)
  both_width none n h = inl (refl, refl)
  both_width (some padding) n h = h padding

  both_char :
      (pos : List ℕ) (n : ℕ) {f g : ℕ → List ℕ → Option (PrintfData × List ℕ × List ℕ)}
      → length pos ≤ n
      → ((c : ℕ) (rest : List ℕ) → length rest ≤ n → IsShorter n (f c rest) (g c rest))
      → IsShorter n
          (elim pos [ [] ↦ none | c ∷ rest ↦ f c rest ])
          (elim pos [ [] ↦ none | c ∷ rest ↦ g c rest ])
  both_char [] n le h = inl (refl, refl)
  both_char (c ∷ rest) n le h = h c rest (omega arith)

  both_rest :
      (n : ℕ) (pos : List ℕ) {a b : Option (PrintfData × List ℕ)}
      → length pos ≤ n
      → IsSame k a b
      → IsShorter n
          (a >>= λ (out, args). some (out, args, pos))
          (b >>= λ (out, args). some (out, args, pos))
  both_rest n pos le (inl (e, e')) = inl (rw e refl, rw e' refl)
  both_rest n pos le (inr (w, args, e, e')) = inr (w, args, pos, le, rw e refl, rw e' refl)

  both_directive :
      (pos args w : List ℕ)
      → IsShorter
          (length pos)
          (directive text stack pos args (free w))
          (directive text stack pos args (cut k w))
  unfolding directive
  both_directive pos args w =
      let pos₁ = (zero_flag pos).1 in
      let pos₂ = (width_digits pos₁).1 in
      let pos₃ = (long_flags pos₂).1 in
      let le : length pos₃ ≤ length pos =
        omega (arith, zero_flag-length pos, width_digits-length pos₁, long_flags-length pos₂) in
      both_width (width_of (stack pos) (width_digits pos₁).0) (length pos) λ padding.
        both_char pos₃ (length pos) le
          λ c rest le'. both_rest (length pos) rest le' (both_convert k text _ _ c args w)

  -- How a run ends.
  abbrev IsSameRun : Run → Run → Type 0
  IsSameRun a b =
      ((a ≡ fault) × (b ≡ fault)) ⊎ ((w : List ℕ) × (a ≡ done (free w)) × (b ≡ done (cut k w)))

  both_format :
      (fuel : ℕ) (pos args w : List ℕ)
      → length pos < fuel
      → IsSameRun
          (printf_format fuel text stack pos args (free w))
          (printf_format fuel text stack pos args (cut k w))
  unfolding printf_format
  both_format zero pos args w lt = absurd (omega arith)
  both_format (suc fuel) [] args w lt = inr (w, refl, refl)
  both_format (suc fuel) (c ∷ pos) args w lt = elim (Bool-cases (c == b'%')) [
    | inl e ↦ elim (both_directive pos args w) [
      | inl (p, q) ↦ rw (e, p, q) (inl (refl, refl))
      | inr (w', args', pos', le, p, q) ↦
          rw (e, p, q) (both_format fuel pos' args' w' (omega arith))
    ]
    | inr e ↦
        rw (e, putcf-free w c, putcf-cut k w c)
          (both_format fuel pos args (w ++ c ∷ []) (omega arith))
  ]

take-nil : (k : ℕ) → take {A = ℕ} k [] ≡ []
take-nil zero = refl
take-nil (suc k) = refl

-- Either `vsprintf` and `vsnprintf` both meet a fault, whatever the size, or both stop, the first writes
-- some bytes and a zero byte and returns their number as an `int`, and the second writes those of them that are
-- within the size and a zero byte, and returns their number as an `int`.
pub vsnprintf-take :
    (text : ℕ → List ℕ) (stack : List ℕ → List ℕ) (size : ℕ) (format args : List ℕ)
    → ((vsprintf text stack format args ≡ broken)
        × (vsnprintf text stack size format args ≡ broken))
      ⊎ ((w : List ℕ) × (vsprintf text stack format args
            ≡ printed (w ++ 0 ∷ []) (int_of (length w)))
          × (vsnprintf text stack size format args
              ≡ printed (take size w ++ 0 ∷ []) (int_of (min size (length w)))))
unfolding vsprintf vsnprintf
vsnprintf-take text stack size format args =
    elim (rw (take-nil size) at
      (both_format size text stack (suc (length format)) format args [] (omega arith))) [
        | inl (p, q) ↦ inl (rw p refl, rw q refl)
        | inr (w, p, q) ↦ inr (
          w,
          rw p refl,
          rw q (ap (λ (n : ℕ). printed (take size w ++ 0 ∷ []) (int_of n)) (length-take size w)),
        )
      ]

count : Printed → ℕ
count (printed w n) = length w
count broken = 0
count unfinished = 0

-- If the output without a limit has at least as many bytes as the buffer, `vsnprintf` writes one byte
-- more than the buffer has: it fills the buffer, and the zero byte goes behind it.
pub vsnprintf_past :
    (text : ℕ → List ℕ) (stack : List ℕ → List ℕ) (size : ℕ) (format args whole : List ℕ) (n : ℤ)
    → vsprintf text stack format args ≡ printed whole n
    → size < length whole
    → (s : List ℕ) × (vsnprintf text stack size format args ≡ printed (s ++ 0 ∷ []) (int_of size))
      × (length (s ++ 0 ∷ []) ≡ size + 1)
unfolding count
vsnprintf_past text stack size format args whole n h le =
    elim (vsnprintf-take text stack size format args) [
      | inl (p, q) ↦ absurd (omega (arith, le, ap count (sym p ∙ h)))
      | inr (w, p, q) ↦
          let e : length (w ++ 0 ∷ []) ≡ length whole = ap count (sym p ∙ h) in
          let full : min size (length w) ≡ size = omega (arith, e, le, length-append w (0 ∷ [])) in
          (
            take size w,
            q ∙ ap (λ (n : ℕ). printed (take size w ++ 0 ∷ []) (int_of n)) full,
            omega (arith, length-append (take size w) (0 ∷ []), length-take size w, full),
          )
    ]
