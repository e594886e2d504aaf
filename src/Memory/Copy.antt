-- ===== src/Memory/Copy.antt =====
-- What `memcpy`, `memmove` and `memset` of lib/string.c leave in memory.
use native.Mathlib.Decide.{dec_lt}
use mint.Base.{
  ℕ, zero, suc, ◌+◌, ◌-◌, ◌%◌, ◌≤◌, ◌&&◌, ◌≡◌, ◌⊎◌, inl, inr, arith, ltb, leb, if◌then◌else◌,
  lt→ltb, not_lt→ltb,
}
use mint.Memory.{Memory, write, memcpy, copy_down, memmove, memset}

-- The bytes from `dest` on are the `n` bytes that `m` has from `src` on, and all others are those of `m`.
abbrev pub copied : Memory → ℕ → ℕ → ℕ → Memory
copied m dest src n x = if leb dest x && ltb x (dest + n) then m (src + (x - dest)) else m x

shift :
    (dest src n : ℕ)
    → (dest ≤ src) ⊎ (src + suc n ≤ dest)
    → (dest + 1 ≤ src + 1) ⊎ (src + 1 + n ≤ dest + 1)
shift dest src n (inl le) = inl (omega arith)
shift dest src n (inr le) = inr (omega arith)

-- `memcpy` copies, unless the end of the source overlaps the start of the destination.
pub memcpy_lem :
    (m : Memory) (dest src n : ℕ)
    → (dest ≤ src) ⊎ (src + n ≤ dest)
    → (x : ℕ) → memcpy m dest src n x ≡ copied m dest src n x
unfolding memcpy
memcpy_lem m dest src zero apart x = ground arith
memcpy_lem m dest src (suc n) apart x =
    ground
      (arith, memcpy_lem (write m dest (m src)) (dest + 1) (src + 1) n (shift dest src n apart) x)

copy_down_lem :
    (m : Memory) (dest src n : ℕ)
    → src ≤ dest
    → (x : ℕ) → copy_down m dest src n x ≡ copied m dest src n x
unfolding copy_down
copy_down_lem m dest src zero le x = ground arith
copy_down_lem m dest src (suc n) le x =
    ground (arith, copy_down_lem (write m (dest + n) (m (src + n))) dest src n le x)

-- `memmove` copies what the source held before the call, however the two overlap, and changes nothing
-- else.
pub memmove_lem :
    (m : Memory) (dest src n : ℕ) (x : ℕ) → memmove m dest src n x ≡ copied m dest src n x
unfolding memmove
memmove_lem m dest src n x = elim (dec_lt dest src) [
  | yes lt ↦ rw (lt→ltb dest src lt) (memcpy_lem m dest src n (inl (omega arith)) x)
  | no ge ↦ rw (not_lt→ltb dest src (omega arith)) (copy_down_lem m dest src n (omega arith) x)
]

-- `memset` fills its range with the low byte of the value, and changes nothing else.
pub memset_lem :
    (m : Memory) (str c n x : ℕ)
    → memset m str c n x ≡ (if leb str x && ltb x (str + n) then c % 256 else m x)
unfolding memset
memset_lem m str c zero x = ground arith
memset_lem m str c (suc n) x = ground (arith, memset_lem (write m str (c % 256)) (str + 1) c n x)
