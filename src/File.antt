-- ===== src/File.antt =====
-- fs/file.c: reads and writes at the offset of an open file. What the functions of a file system or a
-- block device do is a parameter: on a state of their own, and apart from the offset.
pub mod Offset
use mint.Base.{ℕ, zero, suc, ◌+◌, Option, none, some, ◌==◌, if◌then◌else◌, ℤ, pos, negsuc}
use mint.Math.{u64}
use mint.Vfs.{eio}

-- From the buffer, the size and the offset: what is returned.
abbrev pub Operation : Type 0 → Type 0
Operation A = A → ℕ → ℕ → ℕ → ℤ × A

-- `struct file`: the `read` of the block device of its inode if there is one, the functions of `f_ops`,
-- and `f_off` as its 64 bits.
pub record File (A : Type 0) : Type 0 where
  pub device_read : Option (Operation A)
  pub read : Option (Operation A)
  pub write : Option (Operation A)
  pub f_off : ℕ

abbrev pub perform : {A : Type 0} → Option (Operation A) → A → ℕ → ℕ → ℕ → ℤ × A
perform none a buffer size off = (eio, a)
perform (some operation) a buffer size off = operation a buffer size off

abbrev pub or_else :
    {A : Type 0} → Option (Operation A) → Option (Operation A) → Option (Operation A)
or_else none other = other
or_else (some operation) other = some operation

-- A file or a buffer may be `NULL`, which is `none` or 0.
unfoldable pub file_pread : {A : Type 0} → Option (File A) → A → ℕ → ℕ → ℤ × A
file_pread none a buffer size = (eio, a)
file_pread (some file) a buffer size =
    if buffer == 0
    then (eio, a)
    else perform (or_else file.device_read file.read) a buffer size file.f_off

unfoldable pub file_pwrite : {A : Type 0} → Option (File A) → A → ℕ → ℕ → ℤ × A
file_pwrite none a buffer size = (eio, a)
file_pwrite (some file) a buffer size =
    if buffer == 0 then (eio, a) else perform file.write a buffer size file.f_off

-- `if (ret > 0) file->f_off += ret;`
abbrev pub moved : {A : Type 0} → File A → ℤ → File A
moved file (pos n) = record file { f_off = u64 (file.f_off + n) }
moved file (negsuc n) = file

-- What is returned, the file after it, and the state.
unfoldable pub file_read : {A : Type 0} → Option (File A) → A → ℕ → ℕ → ℤ × Option (File A) × A
file_read none a buffer size = (eio, none, a)
file_read (some file) a buffer size =
    if buffer == 0
    then (eio, some file, a)
    else (let (ret, a') = file_pread (some file) a buffer size in (ret, some (moved file ret), a'))

unfoldable pub file_write : {A : Type 0} → Option (File A) → A → ℕ → ℕ → ℤ × Option (File A) × A
file_write none a buffer size = (eio, none, a)
file_write (some file) a buffer size =
    if buffer == 0
    then (eio, some file, a)
    else (let (ret, a') = file_pwrite (some file) a buffer size in (ret, some (moved file ret), a'))
