-- ===== src/Strings.antt =====
-- The `str` functions of lib/string.c, on the byte memory of `Memory`. A loop that runs to a zero byte
-- is on fuel, and `none` says that the fuel ran out. A pointer that may be `NULL` is an `Option`.
pub mod Chars
pub mod Length
pub mod Compare
pub mod Copy
pub mod Bounded
pub mod Search
pub mod Tokens
use mint.Base.{
  ℕ, zero, suc, ◌+◌, ◌-◌, ◌%◌, ◌^◌, Bool, true, false, not, ◌&&◌, ◌||◌, Option, none, some, ◌>>=◌,
  ltb, ◌==◌, if◌then◌else◌, ℤ, pos, sub_ℕ,
}
use mint.Memory.{Memory, write, memcmp, memcpy}

unfoldable pub strlen : ℕ → Memory → ℕ → Option ℕ
strlen zero m str = none
strlen (suc fuel) m str =
    let rest = strlen fuel m (str + 1) in if m str == 0 then some 0 else rest >>= λ n. some (n + 1)

-- `while (*end != '\0') end++;`
unfoldable pub end_of : ℕ → Memory → ℕ → Option ℕ
end_of zero m p = none
end_of (suc fuel) m p = let rest = end_of fuel m (p + 1) in if m p == 0 then some p else rest

-- The loop of `strcpy`, and the second one of `strcat`: the bytes before the zero byte, without it.
-- The memory after it, and the two pointers.
unfoldable pub copy_chars : ℕ → Memory → ℕ → ℕ → Option (Memory × ℕ × ℕ)
copy_chars zero m dest src = none
copy_chars (suc fuel) m dest src =
    let rest = copy_chars fuel (write m dest (m src)) (dest + 1) (src + 1) in
    if m src == 0 then some (m, dest, src) else rest

-- What is returned, and the memory.
unfoldable pub strcat : ℕ → Memory → ℕ → ℕ → Option (ℕ × Memory)
strcat fuel m dest src = do
  end ← end_of fuel m dest
  (m', p, q) ← copy_chars fuel m end src
  some (dest, m')

-- `while (n--) { if (!(*end++ = *src++)) return dest; }`, and the zero byte after it.
unfoldable pub append_chars : Memory → ℕ → ℕ → ℕ → Memory
append_chars m end src zero = write m end 0
append_chars m end src (suc n) =
    let m' = write m end (m src) in
    let rest = append_chars m' (end + 1) (src + 1) n in if m src == 0 then m' else rest

unfoldable pub strncat : ℕ → Memory → ℕ → ℕ → ℕ → Option (ℕ × Memory)
strncat fuel m dest src n = end_of fuel m dest >>= λ end. some (dest, append_chars m end src n)

-- The outer `none` is the fuel, and the inner one is `NULL`.
unfoldable pub strchr : ℕ → Memory → ℕ → ℕ → Option (Option ℕ)
strchr zero m str c = none
strchr (suc fuel) m str c =
    let rest = strchr fuel m (str + 1) c in
    if m str == c % 256 then some (some str) else if m str == 0 then some none else rest

-- `*str1 - *str2` for a `char`, which is signed: the byte `b` stands for `(b + 128) % 256 - 128`.
abbrev pub char_difference : ℕ → ℕ → ℤ
char_difference a b = sub_ℕ ((a + 128) % 256) ((b + 128) % 256)

unfoldable pub strcmp : ℕ → Memory → ℕ → ℕ → Option ℤ
strcmp zero m str1 str2 = none
strcmp (suc fuel) m str1 str2 =
    let rest = strcmp fuel m (str1 + 1) (str2 + 1) in
    if not (m str1 == 0) && (m str1 == m str2)
    then rest
    else some (char_difference (m str1) (m str2))

unfoldable pub strncmp : Memory → ℕ → ℕ → ℕ → ℤ
strncmp m str1 str2 zero = pos 0
strncmp m str1 str2 (suc n) =
    let rest = strncmp m (str1 + 1) (str2 + 1) n in
    if m str1 == 0
    then pos 0
    else if m str1 == m str2
    then rest
    else char_difference (m str1) (m str2)

unfoldable pub strcpy : ℕ → Memory → ℕ → ℕ → Option (ℕ × Memory)
strcpy fuel m dest src = copy_chars fuel m dest src >>= λ (m', p, q). some (p, m')

-- The first loop of `strncpy`: the memory, `dest` after it, and `n`, which wraps from 0.
unfoldable pub copy_at_most : Memory → ℕ → ℕ → ℕ → Memory × ℕ × ℕ
copy_at_most m dest src zero = (m, dest, 2 ^ 64 - 1)
copy_at_most m dest src (suc n) =
    let rest = copy_at_most (write m dest (m src)) (dest + 1) (src + 1) n in
    if m src == 0 then (m, dest, n) else rest

-- The second loop: a zero byte at the same place again and again.
unfoldable pub clear_at : ℕ → Memory → ℕ → Memory
clear_at zero m dest = m
clear_at (suc n) m dest = clear_at n (write m dest 0) dest

unfoldable pub strncpy : Memory → ℕ → ℕ → ℕ → ℕ × Memory
strncpy m dest src n = let (m', p, left) = copy_at_most m dest src n in (p, clear_at left m' p)

-- `ret` is what `kmalloc` returns.
unfoldable pub strdup : ℕ → Memory → ℕ → ℕ → Option (ℕ × Memory)
strdup fuel m ret str = strlen fuel m str >>= λ size. some (ret, (strncpy m ret str size).1)

-- The loop of `strrchr`, for a `c` that is not negative. A byte from 128 on is a negative `char`.
unfoldable pub last_char : ℕ → Memory → ℕ → ℕ → Option ℕ → Option (Option ℕ)
last_char zero m str c last = none
last_char (suc fuel) m str c last =
    let rest =
      last_char fuel m (str + 1) c
        (if ltb (m (str + 1)) 128 && (m (str + 1) == c) then some (str + 1) else last) in
    if m str == 0 then some last else rest

unfoldable pub strrchr : ℕ → Memory → ℕ → ℕ → Option (Option ℕ)
strrchr fuel m str c = last_char fuel m str c none

-- The loop of `strstr`, with the length of the needle.
unfoldable pub find_needle : ℕ → Memory → ℕ → ℕ → ℕ → Option (Option ℕ)
find_needle zero m haystack needle n = none
find_needle (suc fuel) m haystack needle n =
    let rest = find_needle fuel m (haystack + 1) needle n in
    if m haystack == 0
    then some none
    else elim (memcmp m haystack needle n) [ pos zero ↦ some (some haystack) | _ ↦ rest ]

unfoldable pub strstr : ℕ → Memory → ℕ → ℕ → Option (Option ℕ)
strstr fuel m haystack needle = strlen fuel m needle >>= λ n. find_needle fuel m haystack needle n

-- The length of the start of `s1` in which no byte is one of `s2`.
unfoldable pub strcspn : ℕ → Memory → ℕ → ℕ → Option ℕ
strcspn zero m s1 s2 = none
strcspn (suc fuel) m s1 s2 =
    let rest = strcspn fuel m (s1 + 1) s2 >>= λ n. some (n + 1) in
    let step = strchr fuel m s2 (m s1) >>= λ at. elim at [ none ↦ rest | some p ↦ some 0 ] in
    if m s1 == 0 then some 0 else step

-- The length of the start of `s1` in which every byte is one of `s2`.
unfoldable pub strspn : ℕ → Memory → ℕ → ℕ → Option ℕ
strspn zero m s1 s2 = none
strspn (suc fuel) m s1 s2 =
    let rest = strspn fuel m (s1 + 1) s2 >>= λ n. some (n + 1) in
    let step = strchr fuel m s2 (m s1) >>= λ at. elim at [ none ↦ some 0 | some p ↦ rest ] in
    if m s1 == 0 then some 0 else step

-- What `strtok_r` returns, `*lasts` and the memory.
pub record Token : Type 0 where
  pub token : Option ℕ
  pub lasts : ℕ
  pub memory : Memory

-- From the byte that ends the token on.
abbrev pub cut_token : Memory → ℕ → ℕ → Token
cut_token m sbegin send =
    if m send == 0
    then record { token = some sbegin; lasts = send; memory = m }
    else record { token = some sbegin; lasts = send + 1; memory = write m send 0 }

-- `empty` is the address of the literal `""`.
unfoldable pub strtok_r : ℕ → Memory → ℕ → Option ℕ → ℕ → ℕ → Option Token
strtok_r fuel m empty s delimiters lasts =
    let start : ℕ = elim s [ none ↦ lasts | some p ↦ p ] in
    strspn fuel m start delimiters >>= λ skipped.
    let sbegin = start + skipped in
    let token = strcspn fuel m sbegin delimiters >>= λ n. some (cut_token m sbegin (sbegin + n)) in
    if m sbegin == 0 then some (record { token = none; lasts = empty; memory = m }) else token
