-- ===== src/Memory.antt =====
-- The `mem` functions of lib/string.c, and the byte memory that they and the string functions work on.
-- An address is a number, and objects do not wrap round its end.
pub mod Copy
pub mod Find
use mint.Base.{ℕ, zero, suc, ◌+◌, ◌%◌, Option, none, some, ltb, ◌==◌, if◌then◌else◌, ℤ, pos, sub_ℕ}

-- The byte at every address.
abbrev pub Memory : Type 0
Memory = ℕ → ℕ

abbrev pub write : Memory → ℕ → ℕ → Memory
write m p v x = if p == x then v else m x

-- A pointer into `str`, or `NULL`.
unfoldable pub memchr : Memory → ℕ → ℕ → ℕ → Option ℕ
memchr m str c zero = none
memchr m str c (suc n) = if m str == c % 256 then some str else memchr m (str + 1) c n

unfoldable pub memcmp : Memory → ℕ → ℕ → ℕ → ℤ
memcmp m str1 str2 zero = pos 0
memcmp m str1 str2 (suc n) =
    if m str1 == m str2 then memcmp m (str1 + 1) (str2 + 1) n else sub_ℕ (m str1) (m str2)

unfoldable pub memcpy : Memory → ℕ → ℕ → ℕ → Memory
memcpy m dest src zero = m
memcpy m dest src (suc n) = memcpy (write m dest (m src)) (dest + 1) (src + 1) n

-- The loop of `memmove` from the last byte down.
unfoldable pub copy_down : Memory → ℕ → ℕ → ℕ → Memory
copy_down m dest src zero = m
copy_down m dest src (suc n) = copy_down (write m (dest + n) (m (src + n))) dest src n

unfoldable pub memmove : Memory → ℕ → ℕ → ℕ → Memory
memmove m dest src n = if ltb dest src then memcpy m dest src n else copy_down m dest src n

unfoldable pub memset : Memory → ℕ → ℕ → ℕ → Memory
memset m str c zero = m
memset m str c (suc n) = memset (write m str (c % 256)) (str + 1) c n
