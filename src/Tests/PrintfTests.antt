-- ===== src/Tests/PrintfTests.antt =====
-- lib/printf.c on short formats.
use Prim.Native.String.{String}
use Prim.Native.Char.{code}
use mathlib.Core.List.{map}
use mint.Base.{
  ℕ, ◌-◌, ◌^◌, List, [], ◌∷◌, ◌++◌, false, ◌⊎◌, ◌≡◌, refl, arith, length, take, min, pos,
}
use mint.Math.{int_of}
use mint.Numbers.{
  Parameters, digit_char, ull2a, ul2a, ui2a, i2a, a2u, a2u_from, unsigned_chars, top_power,
  digit_loop,
}
use mint.Printf.{
  printed, broken, putcf, put_all, puts, put_hex, width_digits, directive, convert, printf_format,
  vsprintf, vsnprintf,
}
use mint.Numbers.Digits.{value, AllBelow, ull2a-AllBelow}
use mint.Numbers.Decimal.{a2u-ui2a}
use mint.Printf.Bounds.{vsnprintf-take, vsnprintf_past}

abbrev codes : String → List ℕ
codes String.[] = []
codes (String.◌∷◌ c s) = code c ∷ codes s

abbrev text : ℕ → List ℕ
text p = codes "abc"

abbrev stack : List ℕ → List ℕ
stack rest = 0 ∷ 0 ∷ 0 ∷ 0 ∷ 0 ∷ []

abbrev lower_hex : Parameters
lower_hex = record {
  base = 16;
  uppercase = false;
  is_negative = false;
  padding = 0;
  zero_pad = false;
}

abbrev decimal : Parameters
decimal = record lower_hex { base = 10 }

formats_run :
    vsprintf text stack
      (codes "%05d|%x|%s|%lu|%i%%")
      (42 ∷ 0xbeef ∷ 7 ∷ (2 ^ 64 - 1) ∷ (2 ^ 32 - 5) ∷ [])
    ≡ printed (codes "00042|beef|abc|18446744073709551615|-5%" ++ 0 ∷ []) (pos 39)
unfolding vsprintf printf_format directive width_digits convert puts put_all putcf put_hex ull2a
    ul2a ui2a i2a unsigned_chars top_power digit_loop a2u a2u_from
formats_run = refl

hello_run : vsprintf text stack (codes "hello") [] ≡ printed (codes "hello" ++ 0 ∷ []) (pos 5)
unfolding vsprintf printf_format putcf
hello_run = refl

vsnprintf-take_example :
    ((vsprintf text stack (codes "%s-%u") (0 ∷ 70 ∷ []) ≡ broken)
      × (vsnprintf text stack 4 (codes "%s-%u") (0 ∷ 70 ∷ []) ≡ broken))
    ⊎ ((w : List ℕ) × (vsprintf text stack (codes "%s-%u") (0 ∷ 70 ∷ [])
          ≡ printed (w ++ 0 ∷ []) (int_of (length w)))
        × (vsnprintf text stack 4 (codes "%s-%u") (0 ∷ 70 ∷ [])
            ≡ printed (take 4 w ++ 0 ∷ []) (int_of (min 4 (length w)))))
vsnprintf-take_example = vsnprintf-take text stack 4 (codes "%s-%u") (0 ∷ 70 ∷ [])

vsnprintf_past_example :
    (s : List ℕ) × (vsnprintf text stack 4 (codes "hello") [] ≡ printed (s ++ 0 ∷ []) (pos 4))
    × (length (s ++ 0 ∷ []) ≡ 5)
vsnprintf_past_example =
    vsnprintf_past text stack 4 (codes "hello") [] (codes "hello" ++ 0 ∷ []) (pos 5) hello_run
      (omega arith)

ull2a-AllBelow_example :
    (ds : List ℕ) × (ull2a 48879 lower_hex ≡ map (digit_char false) ds)
    × AllBelow 16 ds
    × (value 16 0 ds ≡ 48879)
ull2a-AllBelow_example = ull2a-AllBelow 48879 lower_hex (omega arith)

a2u-ui2a_example : a2u (ui2a 4294967295 decimal) ≡ 4294967295
a2u-ui2a_example = a2u-ui2a 4294967295 decimal refl refl
