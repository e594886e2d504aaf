-- ===== src/Tests/MemoryTests.antt =====
-- The `mem` functions of lib/string.c on the bytes 11, 22, 33, 22 from address 10 on.
use mint.Base.{
  ℕ, ◌+◌, ◌-◌, ◌<◌, List, [], ◌∷◌, get_or, leb, if◌then◌else◌, none, some, pos, negsuc, sub_ℕ, ◌≡◌,
  ◌≢◌, ◌⊎◌, refl,
}
use mint.Memory.{Memory, memchr, memcmp, memmove}
use mint.Memory.Copy.{memmove_lem}
use mint.Memory.Find.{memcmp_lem}

-- The bytes of a list from an address on, and zeros elsewhere.
abbrev pub stored : ℕ → List ℕ → Memory
stored p s x = if leb p x then get_or s (x - p) 0 else 0

abbrev ram : Memory
ram = stored 10 (11 ∷ 22 ∷ 33 ∷ 22 ∷ [])

memchr_runs : (memchr ram 10 (256 + 22) 4 ≡ some 11) × (memchr ram 10 44 4 ≡ none)
unfolding memchr
memchr_runs = (refl, refl)

memcmp_runs : (memcmp ram 11 13 1 ≡ pos 0) × (memcmp ram 10 11 4 ≡ negsuc 10)
unfolding memcmp
memcmp_runs = (refl, refl)

-- One byte up, over itself.
memmove_lem_example : memmove ram 11 10 3 13 ≡ 33
memmove_lem_example = memmove_lem ram 11 10 3 13

memcmp_lem_example :
    ((memcmp ram 10 12 2 ≡ pos 0) × ((j : ℕ) → j < 2 → ram (10 + j) ≡ ram (12 + j)))
    ⊎ ((i : ℕ) × (i < 2)
        × ((j : ℕ) → j < i → ram (10 + j) ≡ ram (12 + j))
        × (ram (10 + i) ≢ ram (12 + i))
        × (memcmp ram 10 12 2 ≡ sub_ℕ (ram (10 + i)) (ram (12 + i))))
memcmp_lem_example = memcmp_lem ram 10 12 2
