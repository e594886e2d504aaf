-- ===== src/Tests/StringsTests.antt =====
-- The `str` functions of lib/string.c on strings at 100 and at 200.
use mint.Base.{ℕ, List, [], ◌∷◌, if◌then◌else◌, ◌==◌, none, some, pos, inr, ◌≡◌, ◌↔◌, refl, arith}
use mint.Memory.{Memory, memcmp}
use mint.Memory.Copy.{copied}
use mint.Strings.{
  strlen, strchr, strcmp, strncmp, strncpy, strcat, strrchr, strstr, find_needle, strcspn, strspn,
  strtok_r,
}
use mint.Strings.Chars.{IsString}
use mint.Strings.Compare.{IsChars, strcmp_iff, strncmp_prefix}
use mint.Strings.Copy.{strcat_lem}
use mint.Strings.Bounded.{strncpy_past}
use mint.Strings.Search.{last_index, strrchr_lem}
use mint.Strings.Tokens.{strtok_r-IsString}
use mint.Tests.MemoryTests.{stored}

-- `/ab/c` at 100, and `/` at 200.
abbrev path : List ℕ
path = b'/' ∷ b'a' ∷ b'b' ∷ b'/' ∷ b'c' ∷ []

abbrev ram : Memory
ram x = if x == 200 then b'/' else stored 100 path x

path-IsString : IsString ram 100 path
path-IsString = (
  refl,
  omega arith,
  (refl, omega arith, (refl, omega arith, (refl, omega arith, (refl, omega arith, refl)))),
)

path-IsChars : IsChars path
path-IsChars = (
  omega arith,
  omega arith,
  (
    omega arith,
    omega arith,
    (omega arith, omega arith, (omega arith, omega arith, (omega arith, omega arith, tt))),
  ),
)

slash-IsString : IsString ram 200 (b'/' ∷ [])
slash-IsString = (refl, omega arith, refl)

runs :
    (strlen 6 ram 100 ≡ some 5)
    × (strchr 6 ram 100 b'b' ≡ some (some 102))
    × (strchr 6 ram 100 b'x' ≡ some none)
    × (strstr 9 ram 100 104 ≡ some (some 104))
    × (strspn 9 ram 100 200 ≡ some 1)
    × (strcspn 9 ram 101 200 ≡ some 2)
unfolding strlen strchr strstr find_needle memcmp strspn strcspn
runs = (refl, refl, refl, refl, refl, refl)

strcmp_iff_example : (strcmp 6 ram 100 200 ≡ some (pos 0)) ↔ (path ≡ b'/' ∷ [])
strcmp_iff_example =
    strcmp_iff 6 ram 100 200 path (b'/' ∷ []) path-IsString slash-IsString path-IsChars
      (omega arith, omega arith, tt) (omega arith)

-- `/` and `/ab/c` are the same in their first five bytes, says `strncmp`.
strncmp_prefix_example : strncmp ram 200 100 5 ≡ pos 0
strncmp_prefix_example =
    strncmp_prefix ram 200 100 5 (b'/' ∷ []) (b'a' ∷ b'b' ∷ b'/' ∷ b'c' ∷ []) slash-IsString
      path-IsString

strncpy_past_example :
    let (p, m') = strncpy ram 300 100 3 in
    (p ≡ 303) × ((x : ℕ) → m' x ≡ (if x == 303 then 0 else copied ram 300 100 3 x))
strncpy_past_example =
    strncpy_past ram 300 100 3 path path-IsString (omega arith) (inr (omega arith))

strcat_lem_example :
    (m' : Memory) × (strcat 6 ram 200 100 ≡ some (200, m'))
    × ((x : ℕ) → m' x ≡ copied ram 201 100 5 x)
    × (m' 206 ≡ ram 206)
strcat_lem_example =
    strcat_lem 6 ram 200 100 (b'/' ∷ []) path slash-IsString path-IsString (omega arith)
      (omega arith) (inr (omega arith))

-- Not the first slash.
strrchr_lem_example : strrchr 6 ram 200 b'/' ≡ some none
unfolding last_index
strrchr_lem_example = strrchr_lem 6 ram 200 b'/' b'/' [] slash-IsString (omega arith) (omega arith)

strtok_r-IsString_example :
    (m' : Memory) × (strtok_r 20 ram 0 (some 100) 200 7
      ≡ some (record { token = some 101; lasts = 104; memory = m' }))
    × IsString m' 101 (b'a' ∷ b'b' ∷ [])
    × IsString m' 104 (b'c' ∷ [])
strtok_r-IsString_example =
    strtok_r-IsString 20 ram 0 (some 100) 7 200 b'a' b'/' (b'/' ∷ []) (b'/' ∷ []) (b'b' ∷ [])
      (b'c' ∷ []) slash-IsString path-IsString path-IsChars (refl, tt) (refl, (refl, tt)) refl
      (omega arith)
