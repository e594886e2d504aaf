-- ===== src/File/Offset.antt =====
-- The offset of a file of fs/file.c after some reads and writes.
use mint.Base.{
  ℕ, ◌<◌, ◌+◌, ◌^◌, List, [], ◌∷◌, Option, some, ◌≡◌, refl, ap, ◌∙◌, arith, ◌==◌, ℤ, pos, negsuc,
  Bool-cases, inl, inr,
}
use mint.Math.{u64}
use mint.Vfs.{eio}
use mint.File.{File, file_pread, file_pwrite, moved, file_read, file_write}

-- A read or a write, with its buffer and its size.
pub data Access : Type 0 where
  reading : ℕ → ℕ → Access
  writing : ℕ → ℕ → Access

abbrev pub access : {A : Type 0} → Option (File A) → A → Access → ℤ × Option (File A) × A
access file a (reading buffer size) = file_read file a buffer size
access file a (writing buffer size) = file_write file a buffer size

-- One after the other: what they return, and the file at the end.
unfoldable pub accesses :
    {A : Type 0} → Option (File A) → A → List Access → List ℤ × Option (File A)
accesses file a [] = ([], file)
accesses file a (x ∷ xs) =
    let (ret, file', a') = access file a x in
    let (rets, end) = accesses file' a' xs in (ret ∷ rets, end)

-- How many bytes the calls have read or written.
abbrev pub transferred : List ℤ → ℕ
transferred [] = 0
transferred (pos n ∷ rets) = n + transferred rets
transferred (negsuc n ∷ rets) = transferred rets

-- An access moves the file by what it returns.
access_moves :
    {A : Type 0} (file : File A) (a : A) (x : Access)
    → (a' : A) × (ret : ℤ) × (access (some file) a x ≡ (ret, some (moved file ret), a'))
unfolding file_read file_write
access_moves file a (reading buffer size) = elim (Bool-cases (buffer == 0)) [
  | inl e ↦ (a, eio, rw e refl)
  | inr e ↦ let (ret, a') = file_pread (some file) a buffer size in (a', ret, rw e refl)
]
access_moves file a (writing buffer size) = elim (Bool-cases (buffer == 0)) [
  | inl e ↦ (a, eio, rw e refl)
  | inr e ↦ let (ret, a') = file_pwrite (some file) a buffer size in (a', ret, rw e refl)
]

moved_small :
    {A : Type 0} (file : File A) (ret : ℤ) → file.f_off < 2 ^ 64 → (moved file ret).f_off < 2 ^ 64
moved_small file (pos n) small = omega arith
moved_small file (negsuc n) small = small

-- The bytes of an access count before those of the others.
onward :
    {A : Type 0} (file : File A) (ret : ℤ) (rest : List ℤ × Option (File A))
    → rest.1
      ≡ some (record (moved file ret) { f_off = u64 ((moved file ret).f_off + transferred rest.0) })
    → rest.1 ≡ some (record file { f_off = u64 (file.f_off + transferred (ret ∷ rest.0)) })
onward file (pos n) rest h = h ∙ ap (λ (o : ℕ). some (record file { f_off = o })) (omega arith)
onward file (negsuc n) rest h = h

-- After any reads and writes, those that fail included, the file is there with the same functions, and
-- its offset is the one at the start and the number of bytes transferred, in 64 bits.
pub accesses-transferred :
    {A : Type 0} (file : File A) (a : A) (xs : List Access)
    → file.f_off < 2 ^ 64
    → let (rets, end) = accesses (some file) a xs in
      end ≡ some (record file { f_off = u64 (file.f_off + transferred rets) })
unfolding accesses
accesses-transferred file a [] small =
    ap (λ (o : ℕ). some (record file { f_off = o })) (omega arith)
accesses-transferred file a (x ∷ xs) small =
    let (a', ret, e) = access_moves file a x in
    rw e (
      onward file ret (accesses (some (moved file ret)) a' xs)
        (accesses-transferred (moved file ret) a' xs (moved_small file ret small)))
