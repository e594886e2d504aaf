-- ===== src/Vfs.antt =====
-- include/fs/fs.h: what the file systems and the path walk share. `NULL` is 0.
use mint.Base.{ℕ, ◌-◌, ◌^◌, ltb, if◌then◌else◌, ℤ, pos, negsuc}

-- `struct inode`, the fields that are read or written. The functions it points to are those of the file
-- system of `i_sb`.
pub record Inode : Type 0 where
  pub i_ino : ℕ
  pub i_mode : ℕ
  pub i_uid : ℕ
  pub i_gid : ℕ
  pub i_size : ℕ
  pub i_sb : ℕ

-- `struct dentry`, with the address of its `d_name`.
pub record Dentry : Type 0 where
  pub d_sb : ℕ
  pub d_ino : ℕ
  pub d_name : ℕ

abbrev pub dentry_name_max : ℕ
dentry_name_max = 256

abbrev pub s_ifmt : ℕ
s_ifmt = 0xF000

abbrev pub s_ifdir : ℕ
s_ifdir = 0x4000

-- `-EIO` and `-ENOENT`
abbrev pub eio : ℤ
eio = negsuc 4

abbrev pub enoent : ℤ
enoent = negsuc 1

-- An `ssize_t` of 64 bits.
abbrev pub ssize : ℕ → ℤ
ssize n = if ltb n (2 ^ 63) then pos n else negsuc (2 ^ 64 - 1 - n)
