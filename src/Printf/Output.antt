-- ===== src/Printf/Output.antt =====
-- The output of lib/printf.c with a limit against the output without one.
use mathlib.Core.List.{append_assoc, append-nil}
use native.Mathlib.Decide.{dec_lt}
use mint.Base.{
  ℕ, zero, suc, ◌+◌, ◌-◌, ◌≤◌, List, [], ◌∷◌, ◌++◌, length, take, replicate, Bool, true, false,
  Option, none, some, ◌>>=◌, ◌≡◌, ◌⊎◌, inl, inr, refl, sym, ap, ◌∙◌, arith, ◌==◌, if◌then◌else◌,
  min, lt→ltb, not_lt→ltb, ◌||◌, ◌%◌, ◌^◌,
}
use mint.Numbers.{Parameters, ull2a, ul2a, ui2a}
use mint.Printf.{
  PrintfData, putcf, put_all, puts, put_hex, convert, va_arg, by_length, zero_flag, width_digits,
  long_flags,
}

-- What has been written without a limit, and with one.
abbrev pub free : List ℕ → PrintfData
free w = record { written = w; max = none }

abbrev pub cut : ℕ → List ℕ → PrintfData
cut k w = record { written = take k w; max = some k }

pub length-take : (k : ℕ) (w : List ℕ) → length (take k w) ≡ min k (length w)
length-take zero w = omega arith
length-take (suc k) [] = omega arith
length-take (suc k) (x ∷ w) = omega (arith, length-take k w)

take_append_short : (k : ℕ) (w v : List ℕ) → length w + length v ≤ k → take k (w ++ v) ≡ w ++ v
take_append_short zero [] [] h = refl
take_append_short (suc k) [] [] h = refl
take_append_short zero [] (y ∷ v) h = absurd (omega arith)
take_append_short (suc k) [] (y ∷ v) h = ap (◌∷◌ y) (take_append_short k [] v (omega arith))
take_append_short zero (x ∷ w) v h = absurd (omega arith)
take_append_short (suc k) (x ∷ w) v h = ap (◌∷◌ x) (take_append_short k w v (omega arith))

take_append_long : (k : ℕ) (w v : List ℕ) → k ≤ length w → take k (w ++ v) ≡ take k w
take_append_long zero w v h = refl
take_append_long (suc k) [] v h = absurd (omega arith)
take_append_long (suc k) (x ∷ w) v h = ap (◌∷◌ x) (take_append_long k w v (omega arith))

pub putcf-free : (w : List ℕ) (c : ℕ) → putcf (free w) c ≡ free (w ++ c ∷ [])
unfolding putcf
putcf-free w c = refl

pub putcf-cut : (k : ℕ) (w : List ℕ) (c : ℕ) → putcf (cut k w) c ≡ cut k (w ++ c ∷ [])
unfolding putcf
putcf-cut k w c = elim (dec_lt (length w) k) [
  | yes lt ↦
      let whole : take k w ≡ w =
        sym (ap (take k) (append-nil w)) ∙ take_append_short k w [] (omega arith) ∙ append-nil w in
      rw (take_append_short k w (c ∷ []) (omega arith), whole, lt→ltb (length w) k lt) refl
  | no ge ↦
      let full : min k (length w) ≡ k = omega arith in
      rw
        (
          length-take k w,
          full,
          not_lt→ltb k k (omega arith),
          take_append_long k w (c ∷ []) (omega arith),
        )
        refl
]

put_all-free : (w s : List ℕ) → put_all (free w) s ≡ free (w ++ s)
unfolding put_all
put_all-free w [] = ap free (sym (append-nil w))
put_all-free w (c ∷ s) =
    rw (putcf-free w c, put_all-free (w ++ c ∷ []) s) (ap free (append_assoc w (c ∷ []) s))

put_all-cut : (k : ℕ) (w s : List ℕ) → put_all (cut k w) s ≡ cut k (w ++ s)
unfolding put_all
put_all-cut k w [] = ap (cut k) (sym (append-nil w))
put_all-cut k w (c ∷ s) =
    rw (putcf-cut k w c, put_all-cut k (w ++ c ∷ []) s) (ap (cut k) (append_assoc w (c ∷ []) s))

-- How a step ends on both: with the same bytes but for the limit, or with a fault on both.
abbrev pub IsSame : ℕ → {A : Type 0} → Option (PrintfData × A) → Option (PrintfData × A) → Type 0
IsSame k {A} a b =
    ((a ≡ none) × (b ≡ none))
    ⊎ ((w : List ℕ) × (rest : A) × (a ≡ some (free w, rest)) × (b ≡ some (cut k w, rest)))

module _ (k : ℕ) where
  both_if :
      {A : Type 0} (test : Bool) {a b a' b' : Option (PrintfData × A)}
      → IsSame k a b
      → IsSame k a' b'
      → IsSame k (if test then a else a') (if test then b else b')
  both_if true p q = p
  both_if false p q = q

  both_put :
      {A : Type 0} (w s : List ℕ) (rest : A)
      → IsSame k (some (put_all (free w) s, rest)) (some (put_all (cut k w) s, rest))
  both_put w s rest = inr (w ++ s, rest, rw (put_all-free w s) refl, rw (put_all-cut k w s) refl)

  both_arg :
      (args : List ℕ) {f g : ℕ → List ℕ → PrintfData × List ℕ}
      → ((x : ℕ) (args' : List ℕ) → IsSame k (some (f x args')) (some (g x args')))
      → IsSame k
          (va_arg args >>= λ (x, args'). some (f x args'))
          (va_arg args >>= λ (x, args'). some (g x args'))
  both_arg [] h = inl (refl, refl)
  both_arg (x ∷ args) h = h (x % 2 ^ 64) args

  pub both_putcf :
      {A : Type 0} (w : List ℕ) (c : ℕ) (rest : A)
      → IsSame k (some (putcf (free w) c, rest)) (some (putcf (cut k w) c, rest))
  both_putcf w c rest = inr (w ++ c ∷ [], rest, rw (putcf-free w c) refl, rw (putcf-cut k w c) refl)

  pad : Parameters → List ℕ → List ℕ
  pad p message = replicate (p.padding - length message) (if p.zero_pad then b'0' else b' ')

  puts-free : (p : Parameters) (w s : List ℕ) → puts p (free w) s ≡ free (w ++ (pad p s ++ s))
  unfolding puts pad
  puts-free p w s =
      rw (put_all-free w (pad p s), put_all-free (w ++ pad p s) s)
        (ap free (append_assoc w (pad p s) s))

  puts-cut : (p : Parameters) (w s : List ℕ) → puts p (cut k w) s ≡ cut k (w ++ (pad p s ++ s))
  unfolding puts pad
  puts-cut p w s =
      rw (put_all-cut k w (pad p s), put_all-cut k (w ++ pad p s) s)
        (ap (cut k) (append_assoc w (pad p s) s))

  both_puts :
      {A : Type 0} (p : Parameters) (w s : List ℕ) (rest : A)
      → IsSame k (some (puts p (free w) s, rest)) (some (puts p (cut k w) s, rest))
  both_puts p w s rest =
      inr (w ++ (pad p s ++ s), rest, rw (puts-free p w s) refl, rw (puts-cut p w s) refl)

  both_hex :
      {A : Type 0} (p : Parameters) (lng x : ℕ) (w : List ℕ) (rest : A)
      → IsSame k (some (put_hex p lng x (free w), rest)) (some (put_hex p lng x (cut k w), rest))
  unfolding put_hex
  both_hex p lng x w rest =
      both_puts (record p { base = 16 }) w
        (by_length lng (ui2a x (record p { base = 16 })) (ul2a x (record p { base = 16 }))
          (ull2a x (record p { base = 16 })))
        rest

  pub both_convert :
      (text : ℕ → List ℕ) (p : Parameters) (lng c : ℕ) (args : List ℕ) (w : List ℕ)
      → IsSame k (convert text p lng c args (free w)) (convert text p lng c args (cut k w))
  unfolding convert
  both_convert text p lng c args w =
      both_if (c == b'c') (both_arg args λ x r. both_putcf w (x % 256) r) (
        both_if (c == b'd' || c == b'i')
          (both_arg args λ x r. both_puts (record p { base = 10 }) w _ r)
          (both_if (c == b'u') (both_arg args λ x r. both_puts (record p { base = 10 }) w _ r) (
            both_if (c == b'o') (both_arg args λ x r. both_puts (record p { base = 8 }) w _ r) (
              both_if (c == b's') (both_arg args λ x r. both_puts p w (text x) r) (
                both_if (c == b'p')
                  (both_arg args λ x r.
                    rw (puts-free p w (b'0' ∷ b'x' ∷ []), puts-cut p w (b'0' ∷ b'x' ∷ []))
                      (both_hex (record p { uppercase = true; padding = 16; zero_pad = true }) 1 x
                        (w ++ (pad p (b'0' ∷ b'x' ∷ []) ++ b'0' ∷ b'x' ∷ [])) r))
                  (both_if (c == b'X')
                    (both_arg args λ x r. both_hex (record p { uppercase = true }) lng x w r)
                    (both_if (c == b'x') (both_arg args λ x r. both_hex p lng x w r) (
                      both_if (c == b'%') (both_putcf w b'%' args)
                        (inr (w, args, refl, refl))))))))))

pub zero_flag-length : (pos : List ℕ) → length (zero_flag pos).1 ≤ length pos
zero_flag-length [] = omega arith
zero_flag-length (c ∷ pos) = ground arith

pub width_digits-length : (pos : List ℕ) → length (width_digits pos).1 ≤ length pos
unfolding width_digits
width_digits-length [] = omega arith
width_digits-length (c ∷ pos) = ground (arith, width_digits-length pos)

pub long_flags-length : (pos : List ℕ) → length (long_flags pos).1 ≤ length pos
long_flags-length [] = omega arith
long_flags-length (c ∷ []) = ground arith
long_flags-length (c ∷ d ∷ pos) = ground arith
