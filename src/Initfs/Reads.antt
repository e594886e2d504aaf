-- ===== src/Initfs/Reads.antt =====
-- What `initfs_read` of fs/initfs/initfs.c returns and stores.
use mint.Base.{
  ℕ, ◌+◌, ◌-◌, ◌^◌, ◌≤◌, ◌<◌, some, ◌≡◌, ◌⊎◌, inl, inr, ap, ◌∙◌, arith, ltb, leb, if◌then◌else◌, ℤ,
  pos, negsuc,
}
use mint.Math.{u64}
use mint.Memory.{memcpy}
use mint.Memory.Copy.{copied, memcpy_lem}
use mint.Vfs.{ssize}
use mint.Initfs.{Initfs, InitfsInode, get_inode, initfs_read}

-- Two ranges of memory have no byte in common.
abbrev pub AreDisjoint : ℕ → ℕ → ℕ → ℕ → Type 0
AreDisjoint p n q k = (p + n ≤ q) ⊎ (q + k ≤ p)

-- What `initfs_read` returns.
abbrev pub transferred : ℕ → ℕ → ℕ → ℤ
transferred i_size size offset =
    if leb (size + offset) i_size
    then pos (size + offset)
    else if leb offset i_size
    then pos (i_size - offset)
    else negsuc (offset - i_size - 1)

read_total :
    (i_size size offset : ℕ)
    → i_size < 2 ^ 63
    → size + offset < 2 ^ 63
    → ssize (
        if ltb i_size (u64 (size + offset))
        then u64 (i_size + (2 ^ 64 - offset))
        else u64 (size + offset))
      ≡ transferred i_size size offset
read_total i_size size offset h k = ground arith

read_lem :
    (fs : Initfs) (ino buffer size offset : ℕ) (rnode : InitfsInode)
    → get_inode fs ino ≡ some (some rnode)
    → rnode.i_size < 2 ^ 63
    → size + offset < 2 ^ 63
    → (fs' : Initfs) × (initfs_read (some fs) ino buffer size offset
        ≡ some (transferred rnode.i_size size offset, some fs'))
      × ((total : ℕ)
          → transferred rnode.i_size size offset ≡ pos total
          → AreDisjoint (rnode.i_data + offset) total buffer total
          → (x : ℕ) → fs'.bytes x ≡ copied fs.bytes buffer (rnode.i_data + offset) total x)
unfolding initfs_read
read_lem fs ino buffer size offset rnode node h k =
    let total =
      if ltb rnode.i_size (u64 (size + offset))
      then u64 (rnode.i_size + (2 ^ 64 - offset))
      else u64 (size + offset) in
    (
      record fs { bytes = memcpy fs.bytes buffer (rnode.i_data + offset) total },
      rw node (
          ap
            (λ t. some (
              t,
              some (record fs { bytes = memcpy fs.bytes buffer (rnode.i_data + offset) total }),
            ))
            (read_total rnode.i_size size offset h k)),
      λ t e apart x.
          let same : total ≡ t = ground (arith, h, k, e) in
          rw same (
            memcpy_lem fs.bytes buffer (rnode.i_data + offset) t
              (one_way buffer (rnode.i_data + offset) t apart) x),
    )
  where
    one_way : (q p n : ℕ) → AreDisjoint p n q n → (q ≤ p) ⊎ (p + n ≤ q)
    one_way q p n (inl le) = inr le
    one_way q p n (inr le) = inl (omega arith)

-- Of a file of less than 2^63 bytes, `initfs_read` returns `size + offset` if the file is at least as long as
-- that: more than the `size` bytes asked for, unless the offset is 0. It returns the rest of the file if that is
-- less. So many bytes from the offset on are stored in the buffer, if it does not overlap with them, and
-- no other byte changes.
pub initfs_read-transferred :
    (fs : Initfs) (ino buffer size offset total : ℕ) (rnode : InitfsInode)
    → get_inode fs ino ≡ some (some rnode)
    → rnode.i_size < 2 ^ 63
    → size + offset < 2 ^ 63
    → transferred rnode.i_size size offset ≡ pos total
    → AreDisjoint (rnode.i_data + offset) total buffer total
    → (fs' : Initfs) × (initfs_read (some fs) ino buffer size offset ≡ some (pos total, some fs'))
      × ((x : ℕ) → fs'.bytes x ≡ copied fs.bytes buffer (rnode.i_data + offset) total x)
initfs_read-transferred fs ino buffer size offset total rnode node h k e apart =
    let (fs', r, bytes) = read_lem fs ino buffer size offset rnode node h k in
    (fs', r ∙ ap (λ (t : ℤ). some (t, some fs')) e, bytes total e apart)
