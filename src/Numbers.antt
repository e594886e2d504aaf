-- ===== src/Numbers.antt =====
-- The numbers of lib/printf.c: the digits that it puts in its local buffer, and the width that it reads.
pub mod Digits
pub mod Decimal
use mathlib.Core.List.{map}
use mint.Base.{
  ℕ, zero, suc, ◌+◌, ◌-◌, ◌*◌, ◌/◌, ◌%◌, ◌^◌, List, [], ◌∷◌, ◌++◌, length, drop, replicate, Bool,
  true, false, ◌&&◌, ◌||◌, Option, none, some, ◌>>=◌, ltb, leb, ◌==◌, if◌then◌else◌,
}

-- `struct parameters`, without its buffer.
pub record Parameters : Type 0 where
  pub base : ℕ
  pub uppercase : Bool
  pub is_negative : Bool
  pub padding : ℕ
  pub zero_pad : Bool

-- `while (num / d >= base) d *= base;` in a word of `w` bits, on fuel.
unfoldable pub top_power : ℕ → ℕ → ℕ → ℕ → ℕ → ℕ
top_power w zero base num d = d
top_power w (suc fuel) base num d =
    let rest = top_power w fuel base num (d * base % 2 ^ w) in
    if leb base (num / d) then rest else d

-- The loop over the powers, on fuel: the digits that are put in the buffer. `n` says if there is one.
unfoldable pub digit_loop : ℕ → ℕ → ℕ → ℕ → Bool → List ℕ
digit_loop zero base num d n = []
digit_loop (suc fuel) base num d n =
    let emit = num / d ∷ digit_loop fuel base (num % d) (d / base) true in
    let skip = digit_loop fuel base (num % d) (d / base) n in
    if d == 0 then [] else if n || ltb 0 (num / d) || (d / base == 0) then emit else skip

abbrev pub digit_char : Bool → ℕ → ℕ
digit_char uppercase dgt =
    dgt + (if ltb dgt 10 then b'0' else (if uppercase then b'A' else b'a') - 10)

-- The body that `ull2a`, `ul2a` and `ui2a` share, for a word of `w` bits. `w` rounds are fuel enough.
unfoldable pub unsigned_chars : ℕ → ℕ → Parameters → List ℕ
unsigned_chars w num p =
    let digits = digit_loop (suc w) p.base num (top_power w w p.base num 1) false in
    let chars = map (digit_char p.uppercase) digits in if p.is_negative then b'-' ∷ chars else chars

unfoldable pub ull2a : ℕ → Parameters → List ℕ
ull2a num p = unsigned_chars 64 (num % 2 ^ 64) p

unfoldable pub ul2a : ℕ → Parameters → List ℕ
ul2a num p = unsigned_chars 64 (num % 2 ^ 64) p

unfoldable pub ui2a : ℕ → Parameters → List ℕ
ui2a num p = unsigned_chars 32 (num % 2 ^ 32) p

-- The magnitude of an `int`, given by its 32 bits, and its conversion to 64 bits, which takes the sign
-- of the least `int` along.
abbrev pub negate_int : ℕ → ℕ
negate_int bits = (2 ^ 32 - bits) % 2 ^ 32

abbrev pub extend_int : ℕ → ℕ
extend_int bits = if ltb bits (2 ^ 31) then bits else bits + (2 ^ 64 - 2 ^ 32)

abbrev pub negative : Parameters → Parameters
negative p = record p { is_negative = true }

-- All three take an `int`: what is above 32 bits is cut off.
unfoldable pub ll2a : ℕ → Parameters → List ℕ
ll2a num p =
    let bits = num % 2 ^ 32 in
    if ltb bits (2 ^ 31) then ull2a bits p else ull2a (extend_int (negate_int bits)) (negative p)

unfoldable pub l2a : ℕ → Parameters → List ℕ
l2a num p =
    let bits = num % 2 ^ 32 in
    if ltb bits (2 ^ 31) then ul2a bits p else ul2a (extend_int (negate_int bits)) (negative p)

unfoldable pub i2a : ℕ → Parameters → List ℕ
i2a num p =
    let bits = num % 2 ^ 32 in
    if ltb bits (2 ^ 31) then ui2a bits p else ui2a (negate_int bits) (negative p)

-- The loop of `a2u` from `num` on. A byte from 128 on is a negative `char`, and the digit 10 passes.
unfoldable pub a2u_from : ℕ → List ℕ → ℕ
a2u_from num [] = num
a2u_from num (c ∷ src) =
    if leb b'0' c && ltb c 128 && leb (c - b'0') 10
    then a2u_from ((num * 10 + (c - b'0')) % 2 ^ 32) src
    else num

unfoldable pub a2u : List ℕ → ℕ
a2u src = a2u_from 0 src
