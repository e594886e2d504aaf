-- ===== src/Initfs/Contents.antt =====
-- What the files of fs/initfs/initfs.c hold.
use mathlib.Core.Option.{none-ne-some}
use native.Mathlib.Decide.{dec_lt}
use native.Mathlib.Nat.{add-zero}
use mint.Base.{
  ℕ, suc, ◌+◌, ◌-◌, ◌^◌, ◌≤◌, ◌<◌, List, [], ◌∷◌, ◌++◌, length, length-append, some, true, ◌≡◌, ◌⊎◌,
  inl, inr, refl, sym, ap, ◌∙◌, arith, ltb, ◌==◌, ==_refl, ne→==-false, lt→ltb, not_lt→ltb,
  if◌then◌else◌, pos,
}
use mint.Math.{u64}
use mint.Memory.{Memory, memcpy}
use mint.Memory.Copy.{memcpy_lem}
use mint.Vfs.{Inode, ssize}
use mint.Initfs.{Initfs, InitfsInode, get_inode, max_inodes, initfs_read, initfs_write}
use mint.Initfs.Reads.{AreDisjoint, transferred, initfs_read-transferred}

-- The bytes from `p` on.
abbrev pub AreBytes : Memory → ℕ → List ℕ → Type 0
AreBytes m p [] = Unit {0}
AreBytes m p (c ∷ cs) = (m p ≡ c) × AreBytes m (p + 1) cs

-- Bytes that are the same are those of a list.
pub moved-AreBytes :
    (m m' : Memory) (p q : ℕ) (cs : List ℕ)
    → ((j : ℕ) → j < length cs → m' (q + j) ≡ m (p + j))
    → AreBytes m p cs
    → AreBytes m' q cs
moved-AreBytes m m' p q [] same is = tt
moved-AreBytes m m' p q (c ∷ cs) same is = (
  ap m' (sym (add-zero q)) ∙ same 0 (omega arith) ∙ ap m (add-zero p) ∙ is.0,
  moved-AreBytes m m' (p + 1) (q + 1) cs
      (λ j lt. ap m' (omega arith) ∙ same (suc j) (omega arith) ∙ ap m (omega arith)) is.1,
)

append-AreBytes :
    (m : Memory) (p : ℕ) (cs ds : List ℕ)
    → AreBytes m p cs
    → AreBytes m (p + length cs) ds
    → AreBytes m p (cs ++ ds)
append-AreBytes m p [] ds is js = rw (add-zero p) at js
append-AreBytes m p (c ∷ cs) ds is js =
    let shifted : p + length (c ∷ cs) ≡ p + 1 + length cs = omega arith in
    (is.0, append-AreBytes m (p + 1) cs ds is.1 (rw shifted at js))

-- The inode `ino` is a file with the bytes `cs`. `NULL` stands for no block.
pub record IsFile (fs : Initfs) (ino : ℕ) (rnode : InitfsInode) (cs : List ℕ) : Type 0 where
  pub node : get_inode fs ino ≡ some (some rnode)
  pub size : rnode.i_size ≡ length cs
  pub bytes : AreBytes fs.bytes rnode.i_data cs
  pub absent : rnode.i_data ≡ 0 → cs ≡ []

-- What is in memory after the first copy of `initfs_write`.
abbrev kept : Initfs → InitfsInode → ℕ → Memory
kept fs rnode block =
    if rnode.i_data == 0 then fs.bytes else memcpy fs.bytes block rnode.i_data rnode.i_size

module _ (m : Memory) (data_at block size : ℕ) (apart : AreDisjoint data_at size block size) where
  copied_there : (j : ℕ) → j < size → memcpy m block data_at size (block + j) ≡ m (data_at + j)
  copied_there j lt =
      let back : block + j - block ≡ j = omega arith in
      memcpy_lem m block data_at size (elim apart [ inl le ↦ inr le | inr le ↦ inl (omega arith) ])
        (block + j)
      ∙ ground (arith, ap (λ (i : ℕ). m (data_at + i)) back)

  not_there : (x : ℕ) → (x < block) ⊎ (block + size ≤ x) → memcpy m block data_at size x ≡ m x
  not_there x (inl lt) =
      memcpy_lem m block data_at size (elim apart [ inl le ↦ inr le | inr le ↦ inl (omega arith) ])
        x
      ∙ ground arith
  not_there x (inr le) =
      memcpy_lem m block data_at size (elim apart [ inl le ↦ inr le | inr le ↦ inl (omega arith) ])
        x
      ∙ ground arith

-- The old bytes are at the start of the new block, and the buffer is as it was.
module _ (fs : Initfs) (ino block buffer : ℕ) (rnode : InitfsInode) (cs ds : List ℕ)
    (f : IsFile fs ino rnode cs) (old : AreDisjoint rnode.i_data (length cs) block (length cs))
    (new : AreDisjoint buffer (length ds) block (length cs + length ds)) where
  kept_old : AreBytes (kept fs rnode block) block cs
  kept_old = elim (dec_lt 0 rnode.i_data) [
    | yes there ↦ rw (ne→==-false rnode.i_data 0 (λ e. absurd (omega (arith, there, e)))) (
        moved-AreBytes fs.bytes (memcpy fs.bytes block rnode.i_data rnode.i_size) rnode.i_data block
          cs (λ j lt. rw f.size (copied_there fs.bytes rnode.i_data block (length cs) old j lt))
          f.bytes)
    | no none ↦ rw (f.absent (omega (arith, none))) tt
  ]

  kept_buffer : AreBytes fs.bytes buffer ds → AreBytes (kept fs rnode block) buffer ds
  kept_buffer is = elim (dec_lt 0 rnode.i_data) [
    | yes there ↦ rw (ne→==-false rnode.i_data 0 (λ e. absurd (omega (arith, there, e)))) (
        moved-AreBytes fs.bytes (memcpy fs.bytes block rnode.i_data rnode.i_size) buffer buffer ds
          (λ j lt. rw f.size (
            not_there fs.bytes rnode.i_data block (length cs) old (buffer + j)
              (elim new [ inl le ↦ inl (omega arith) | inr le ↦ inr (omega arith) ])))
          is)
    | no none ↦ let null : rnode.i_data ≡ 0 = omega (arith, none) in rw null is
  ]

  -- After the second copy.
  written_bytes :
      AreBytes fs.bytes buffer ds
      → AreBytes
          (memcpy (kept fs rnode block) (block + length cs) buffer (length ds))
          block
          (cs ++ ds)
  written_bytes is =
      let m = kept fs rnode block in
      let apart : AreDisjoint buffer (length ds) (block + length cs) (length ds) = elim new [
        | inl le ↦ inl (omega arith)
        | inr le ↦ inr (omega arith)
      ] in
      append-AreBytes (memcpy m (block + length cs) buffer (length ds)) block cs ds
        (moved-AreBytes m (memcpy m (block + length cs) buffer (length ds)) block block cs
          (λ j lt.
            not_there m buffer (block + length cs) (length ds) apart (block + j)
              (inl (omega arith)))
          kept_old)
        (moved-AreBytes m (memcpy m (block + length cs) buffer (length ds)) buffer
          (block + length cs) ds
          (λ j lt. copied_there m buffer (block + length cs) (length ds) apart j lt)
          (kept_buffer is))

-- An index that is found is in the array.
get_inode-below :
    (fs : Initfs) (ino : ℕ) (r : InitfsInode)
    → get_inode fs ino ≡ some (some r)
    → ltb ino max_inodes ≡ true
get_inode-below fs ino r e = elim (dec_lt ino max_inodes) [
  | yes lt ↦ lt→ltb ino max_inodes lt
  | no ge ↦
      absurd (none-ne-some (some r) (sym (rw (not_lt→ltb ino max_inodes (omega arith)) refl) ∙ e))
]

-- A write at the end of a file of less than 2^63 bytes, with a new block that touches neither its bytes nor the buffer,
-- returns its size, and the file has its bytes and then those of the buffer; the size of the open inode grows by as much.
pub initfs_write-IsFile :
    (kmalloc : ℕ → ℕ) (fs : Initfs) (node : Inode) (block buffer : ℕ) (rnode : InitfsInode)
    (cs ds : List ℕ)
    → kmalloc (length cs + length ds) ≡ block
    → IsFile fs node.i_ino rnode cs
    → AreDisjoint rnode.i_data (length cs) block (length cs)
    → AreDisjoint buffer (length ds) block (length cs + length ds)
    → AreBytes fs.bytes buffer ds
    → 0 < block
    → length cs + length ds < 2 ^ 63
    → (fs' : Initfs) × (rnode' : InitfsInode) × (initfs_write kmalloc
          (some fs)
          node
          buffer
          (length ds)
          (length cs)
        ≡ some
            (pos (length ds), (some fs', record node { i_size = u64 (node.i_size + length ds) })))
      × IsFile fs' node.i_ino rnode' (cs ++ ds)
      × (rnode'.i_data ≡ block)
unfolding initfs_write
initfs_write-IsFile kmalloc fs node block buffer rnode cs ds given f old new is positive small =
    let rnode' = record rnode { i_data = block; i_size = length cs + length ds } in
    let fs' : Initfs = record fs {
      bytes = memcpy (kept fs rnode block) (block + length cs) buffer (length ds);
      inodes = λ i. if node.i_ino == i then some rnode' else fs.inodes i;
    } in
    let below = get_inode-below fs node.i_ino rnode f.node in
    let sum : u64 (length cs + length ds) ≡ length cs + length ds = omega (arith, small) in
    let new_size : u64 (length ds + length cs) ≡ length cs + length ds = omega (arith, small) in
    let ret : ssize (length ds) ≡ pos (length ds) = ground (arith, small) in
    (
      fs',
      rnode',
      rw (f.node, below, f.size, sum, new_size, given, ret) refl,
      record {
        node = rw (below, ==_refl node.i_ino) refl;
        size = sym (length-append cs ds);
        bytes = written_bytes fs node.i_ino block buffer rnode cs ds f old new is;
        absent = λ e. absurd (omega (arith, e, positive));
      },
      refl,
    )

the_same : (a j : ℕ) → a + 0 + j ≡ a + j
the_same a j = omega arith

-- What is written at the end of a file under the conditions of `initfs_write-IsFile`, a read of the whole file
-- from its start gives back, behind what was there before, in a buffer that does not touch the new block.
pub initfs_read-initfs_write :
    (kmalloc : ℕ → ℕ) (fs : Initfs) (node : Inode) (block buffer out : ℕ) (rnode : InitfsInode)
    (cs ds : List ℕ)
    → kmalloc (length cs + length ds) ≡ block
    → IsFile fs node.i_ino rnode cs
    → AreDisjoint rnode.i_data (length cs) block (length cs)
    → AreDisjoint buffer (length ds) block (length cs + length ds)
    → AreBytes fs.bytes buffer ds
    → 0 < block
    → length cs + length ds < 2 ^ 63
    → AreDisjoint block (length cs + length ds) out (length cs + length ds)
    → (fs' : Initfs) × (fs'' : Initfs) × (node' : Inode) × (initfs_write kmalloc
          (some fs)
          node
          buffer
          (length ds)
          (length cs)
        ≡ some (pos (length ds), (some fs', node')))
      × (initfs_read (some fs') node.i_ino out (length cs + length ds) 0
          ≡ some (pos (length cs + length ds), some fs''))
      × AreBytes fs''.bytes out (cs ++ ds)
unfolding initfs_write initfs_read
initfs_read-initfs_write kmalloc fs node block buffer out rnode cs ds given f old new is positive
      small apart =
    let total = length cs + length ds in
    let (fs', rnode', e, f', at) =
      initfs_write-IsFile kmalloc fs node block buffer rnode cs ds given f old new is positive
        small in
    let size : rnode'.i_size ≡ total = f'.size ∙ length-append cs ds in
    let all : transferred rnode'.i_size total 0 ≡ pos total =
      rw (size, add-zero total) (ground arith) in
    let begin : rnode'.i_data + 0 ≡ block = omega (arith, at) in
    let (fs'', r, bytes) =
      initfs_read-transferred fs' node.i_ino out total 0 total rnode' f'.node (rw size small)
        (omega (arith, small)) all (rw begin apart) in
    (
      fs',
      fs'',
      record node { i_size = u64 (node.i_size + length ds) },
      e,
      r,
      moved-AreBytes fs'.bytes fs''.bytes rnode'.i_data out (cs ++ ds)
          (λ j lt.
            let back : out + j - out ≡ j = omega arith in
            let below : j < total = omega (arith, lt, length-append cs ds) in
            bytes (out + j)
            ∙ ground (
              arith,
              below,
              at,
              ap (λ (i : ℕ). fs'.bytes (rnode'.i_data + 0 + i)) back,
              ap fs'.bytes (the_same rnode'.i_data j),
            ))
          f'.bytes,
    )

-- A write that starts before the end of a file of less than 2^63 - size bytes puts it in a block that is
-- allocated for `size + offset` bytes, and leaves the size of the file greater than that.
pub initfs_write_past :
    (kmalloc : ℕ → ℕ) (fs : Initfs) (node : Inode) (buffer size offset : ℕ) (rnode : InitfsInode)
    → get_inode fs node.i_ino ≡ some (some rnode)
    → offset < rnode.i_size
    → rnode.i_size + size < 2 ^ 63
    → (fs' : Initfs) × (node' : Inode) × (rnode' : InitfsInode) × (initfs_write kmalloc
          (some fs)
          node
          buffer
          size
          offset
        ≡ some (pos size, (some fs', node')))
      × (get_inode fs' node.i_ino ≡ some (some rnode'))
      × (rnode'.i_data ≡ kmalloc (size + offset))
      × (size + offset < rnode'.i_size)
unfolding initfs_write
initfs_write_past kmalloc fs node buffer size offset rnode e lt small =
    let block = kmalloc (size + offset) in
    let rnode' = record rnode { i_data = block; i_size = rnode.i_size + size } in
    let sum : u64 (rnode.i_size + size) ≡ rnode.i_size + size = omega (arith, small) in
    let new_size : u64 (size + offset) ≡ size + offset = omega (arith, lt, small) in
    let ret : ssize size ≡ pos size = ground (arith, small) in
    let below = get_inode-below fs node.i_ino rnode e in
    (
      record fs {
        bytes = memcpy (kept fs rnode block) (block + offset) buffer size;
        inodes = λ i. if node.i_ino == i then some rnode' else fs.inodes i;
      },
      record node { i_size = u64 (node.i_size + size) },
      rnode',
      rw (e, below, sum, new_size, ret) refl,
      rw (below, ==_refl node.i_ino) refl,
      refl,
      omega arith,
    )
