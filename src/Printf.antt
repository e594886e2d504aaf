-- ===== src/Printf.antt =====
-- lib/printf.c. A format, a `%s` argument and the local buffer of digits are lists of bytes without
-- their zero byte, and are taken to lie apart from the output. Arguments are 64-bit slots.
pub mod Output
pub mod Bounds
use mathlib.Core.List.{map}
use mint.Base.{
  ℕ, zero, suc, ◌+◌, ◌-◌, ◌*◌, ◌/◌, ◌%◌, ◌^◌, List, [], ◌∷◌, ◌++◌, length, drop, replicate, Bool,
  true, false, ◌&&◌, ◌||◌, Option, none, some, ◌>>=◌, ltb, leb, ◌==◌, if◌then◌else◌, ℤ,
}
use mint.Math.{int_of}
use mint.Numbers.{Parameters, ull2a, ul2a, ui2a, ll2a, l2a, i2a, a2u}

-- `struct printf_data`: the bytes written so far, `used` of them, and what `putcf` tests: `max` for
-- `snprintf_putcf`, and nothing for `sprintf_putcf`.
pub record PrintfData : Type 0 where
  pub written : List ℕ
  pub max : Option ℕ

unfoldable pub putcf : PrintfData → ℕ → PrintfData
putcf out c =
    if elim out.max [ none ↦ true | some max ↦ ltb (length out.written) max ]
    then record out { written = out.written ++ c ∷ [] }
    else out

-- `putcf` for each of them.
unfoldable pub put_all : PrintfData → List ℕ → PrintfData
put_all out [] = out
put_all out (c ∷ s) = put_all (putcf out c) s

-- The first loop of `puts` leaves `n` of the padding. An `int` below 0 counts as its 32 bits do.
unfoldable pub puts : Parameters → PrintfData → List ℕ → PrintfData
puts p out message =
    let n = p.padding - length message in
    put_all (put_all out (replicate n (if p.zero_pad then b'0' else b' '))) message

-- What stands behind a `%`, before the conversion.
abbrev pub zero_flag : List ℕ → Bool × List ℕ
zero_flag [] = (false, [])
zero_flag (c ∷ pos) = if c == b'0' then (true, pos) else (false, c ∷ pos)

unfoldable pub width_digits : List ℕ → List ℕ × List ℕ
width_digits [] = ([], [])
width_digits (c ∷ pos) =
    let (digits, rest) = width_digits pos in
    if leb b'0' c && leb c b'9' then (c ∷ digits, rest) else ([], c ∷ pos)

abbrev pub long_flags : List ℕ → ℕ × List ℕ
long_flags [] = (0, [])
long_flags (c ∷ []) = if c == b'l' then (1, []) else (0, c ∷ [])
long_flags (c ∷ d ∷ pos) =
    if c == b'l' then (if d == b'l' then (2, pos) else (1, d ∷ pos)) else (0, c ∷ d ∷ pos)

-- `params.padding`. The local array `padding` has 5 bytes, and more digits are a fault. `a2u` reads on
-- behind the digits: `stack` is what the memory holds from `padding` on before the digits are stored.
abbrev pub width_of : List ℕ → List ℕ → Option ℕ
width_of stack [] = some 0
width_of stack (c ∷ digits) =
    if ltb 5 (length (c ∷ digits))
    then none
    else some (a2u ((c ∷ digits) ++ drop (length (c ∷ digits)) stack))

-- The next argument. Reading past the last one is a fault.
abbrev pub va_arg : List ℕ → Option (ℕ × List ℕ)
va_arg [] = none
va_arg (x ∷ args) = some (x % 2 ^ 64, args)

-- By the number of `l` before the conversion.
abbrev pub by_length : ℕ → List ℕ → List ℕ → List ℕ → List ℕ
by_length lng plain long long_long =
    if lng == 0 then plain else if lng == 1 then long else long_long

-- `case 'x'`, at which `case 'X'` and `case 'p'` arrive too.
unfoldable pub put_hex : Parameters → ℕ → ℕ → PrintfData → PrintfData
put_hex p lng x out =
    let q = record p { base = 16 } in puts q out (by_length lng (ui2a x q) (ul2a x q) (ull2a x q))

-- The `switch`, for the conversion `c`. `text` is what a `%s` argument points to.
unfoldable pub convert :
    (ℕ → List ℕ) → Parameters → ℕ → ℕ → List ℕ → PrintfData → Option (PrintfData × List ℕ)
convert text p lng c args out =
    let decimal = record p { base = 10 } in
    let octal = record p { base = 8 } in
    let pointer = record p { uppercase = true; zero_pad = true; padding = 16 } in
    if c == b'c'
    then (va_arg args >>= λ (x, args'). some (putcf out (x % 256), args'))
    else if c == b'd' || c == b'i'
    then (va_arg args >>= λ (x, args').
        some (
          puts decimal out (by_length lng (i2a x decimal) (l2a x decimal) (ll2a x decimal)),
          args',
        ))
    else if c == b'u'
    then (va_arg args >>= λ (x, args'). some (
      puts decimal out (by_length lng (ui2a x decimal) (ul2a x decimal) (ull2a x decimal)),
      args',
    ))
    else if c == b'o'
    then (va_arg args >>= λ (x, args'). some (puts octal out (ui2a x octal), args'))
    else if c == b's'
    then (va_arg args >>= λ (x, args'). some (puts p out (text x), args'))
    else if c == b'p'
    then (va_arg args >>= λ (x, args').
        some (put_hex pointer 1 x (puts p out (b'0' ∷ b'x' ∷ [])), args'))
    else if c == b'X'
    then (va_arg args >>= λ (x, args').
        some (put_hex (record p { uppercase = true }) lng x out, args'))
    else if c == b'x'
    then (va_arg args >>= λ (x, args'). some (put_hex p lng x out, args'))
    else if c == b'%'
    then some (putcf out b'%', args)
    else some (out, args)

-- `stack` tells by the place of the directive what the memory holds there.
-- From behind a `%` to behind the conversion. A format that ends there is read past its end: a fault.
unfoldable pub directive :
    (ℕ → List ℕ)
    → (List ℕ → List ℕ)
    → List ℕ
    → List ℕ
    → PrintfData
    → Option (PrintfData × List ℕ × List ℕ)
directive text stack pos args out =
    let (zero_pad, pos₁) = zero_flag pos in
    let (digits, pos₂) = width_digits pos₁ in
    let (lng, pos₃) = long_flags pos₂ in
    width_of (stack pos) digits >>= λ padding. elim pos₃ [
      | [] ↦ none
      | c ∷ pos₄ ↦
          let p : Parameters = record {
            base = 0;
            uppercase = false;
            is_negative = false;
            padding = padding;
            zero_pad = zero_pad;
          } in
          convert text p lng c args out >>= λ (out', args'). some (out', args', pos₄)
    ]

-- How a call ends.
pub data Run : Type 0 where
  done : PrintfData → Run
  fault : Run
  out_of_fuel : Run

abbrev pub go_on :
    (PrintfData → List ℕ → List ℕ → Run) → Option (PrintfData × List ℕ × List ℕ) → Run
go_on loop none = fault
go_on loop (some (out, args, pos)) = loop out args pos

unfoldable pub printf_format :
    ℕ → (ℕ → List ℕ) → (List ℕ → List ℕ) → List ℕ → List ℕ → PrintfData → Run
printf_format zero text stack pos args out = out_of_fuel
printf_format (suc fuel) text stack [] args out = done out
printf_format (suc fuel) text stack (c ∷ pos) args out =
    go_on (λ out' args' pos'. printf_format fuel text stack pos' args' out')
      (if c == b'%' then directive text stack pos args out else some (putcf out c, args, pos))

-- The buffer from its start, with the zero byte that is put at `s[data.used]`, and what is returned.
pub data Printed : Type 0 where
  printed : List ℕ → ℤ → Printed
  broken : Printed
  unfinished : Printed

abbrev pub terminate : Run → Printed
terminate (done out) = printed (out.written ++ 0 ∷ []) (int_of (length out.written))
terminate fault = broken
terminate out_of_fuel = unfinished

unfoldable pub vsprintf : (ℕ → List ℕ) → (List ℕ → List ℕ) → List ℕ → List ℕ → Printed
vsprintf text stack format args = terminate (
    printf_format (suc (length format)) text stack format args
      (record { written = []; max = none }))

unfoldable pub vsnprintf : (ℕ → List ℕ) → (List ℕ → List ℕ) → ℕ → List ℕ → List ℕ → Printed
vsnprintf text stack size format args = terminate (
    printf_format (suc (length format)) text stack format args
      (record { written = []; max = some size }))
