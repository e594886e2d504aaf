-- ===== src/Initfs.antt =====
-- fs/initfs/initfs.c: the file system in memory. `none` is an access outside `inodes` or fuel run out.
-- `s_data` of the superblock is an option of the state. `kmalloc` is an argument, and so are the blocks that
-- `kzalloc` returns.
pub mod Names
pub mod Create
pub mod Reads
pub mod Contents
use mint.Base.{
  ℕ, zero, suc, ◌+◌, ◌-◌, ◌^◌, Option, none, some, ◌>>=◌, ltb, ◌==◌, if◌then◌else◌, ℤ, pos, negsuc,
}
use mint.Math.{u64}
use mint.Ring.{Links, list_runtime_init, list_add}
use mint.Memory.{Memory, memcpy, memset}
use mint.Strings.{strcmp, strncpy}
use mint.Vfs.{Inode, Dentry, dentry_name_max, s_ifdir, eio, enoent, ssize}

abbrev pub max_inodes : ℕ
max_inodes = 1000

-- `struct initfs_inode`, with the address of its `i_entries`.
pub record InitfsInode : Type 0 where
  pub i_mode : ℕ
  pub i_ino : ℕ
  pub i_uid : ℕ
  pub i_gid : ℕ
  pub i_size : ℕ
  pub i_nlink : ℕ
  pub i_data : ℕ
  pub i_entries : ℕ

-- `struct initfs_data`, the list elements, and the bytes in memory. An entry goes by the address of its
-- `list`: that of its `d_name`, and its `d_ino`.
pub record Initfs : Type 0 where
  pub inodes : ℕ → Option InitfsInode
  pub next : ℕ
  pub links : Links
  pub d_name : ℕ → ℕ
  pub d_ino : ℕ → ℕ
  pub bytes : Memory

-- `data->inodes[ino]`: the outer `none` is an index past the array, the inner one `NULL`.
abbrev pub get_inode : Initfs → ℕ → Option (Option InitfsInode)
get_inode fs ino = if ltb ino max_inodes then some (fs.inodes ino) else none

abbrev pub set_inode : Initfs → ℕ → InitfsInode → Option Initfs
set_inode fs ino rnode =
    if ltb ino max_inodes
    then some (record fs { inodes = λ i. if ino == i then some rnode else fs.inodes i })
    else none

-- `if (!data) return -EIO;`
abbrev pub with_data : {A : Type 0} → A → Option Initfs → (Initfs → Option (ℤ × A)) → Option (ℤ × A)
with_data a none rest = some (eio, a)
with_data a (some fs) rest = rest fs

-- `if (!rnode) return -EIO;`
abbrev pub or_eio :
    {A : Type 0} → A → Option InitfsInode → (InitfsInode → Option (ℤ × A)) → Option (ℤ × A)
or_eio a none rest = some (eio, a)
or_eio a (some rnode) rest = rest rnode

-- The state after a read of the file `ino`, with what is returned.
unfoldable pub initfs_read : Option Initfs → ℕ → ℕ → ℕ → ℕ → Option (ℤ × Option Initfs)
initfs_read s_data ino buffer size offset = with_data s_data s_data λ fs.
    get_inode fs ino >>= λ found. or_eio s_data found λ rnode.
      let total =
        if ltb rnode.i_size (u64 (size + offset))
        then u64 (rnode.i_size + (2 ^ 64 - offset))
        else u64 (size + offset) in
      some (
        ssize total,
        some (record fs { bytes = memcpy fs.bytes buffer (rnode.i_data + offset) total }),
      )

-- `kmalloc` gives the new block from its size. The inode of the file is changed too.
unfoldable pub initfs_write :
    (ℕ → ℕ) → Option Initfs → Inode → ℕ → ℕ → ℕ → Option (ℤ × (Option Initfs × Inode))
initfs_write kmalloc s_data node buffer size offset =
    with_data {A = Option Initfs × Inode} (s_data, node) s_data
      λ fs. get_inode fs node.i_ino >>= λ found.
        or_eio {A = Option Initfs × Inode} (s_data, node) found
          λ rnode.
            let block = kmalloc (u64 (size + offset)) in
            let kept =
              if rnode.i_data == 0
              then fs.bytes
              else memcpy fs.bytes block rnode.i_data rnode.i_size in
            let written = record fs { bytes = memcpy kept (block + offset) buffer size } in
            set_inode written node.i_ino
              (record rnode { i_data = block; i_size = u64 (rnode.i_size + size) })
            >>= λ stored.
                some (ssize size, (some stored, record node { i_size = u64 (node.i_size + size) }))

-- With the address of the `i_entries` of the new node, and those of the `list` and of the `d_name` of
-- the new entry. A byte that is written behind the 256 of a name is not the `d_ino` that lies there.
-- `eio` is returned as a pointer, and `pos 0` stands for the one to the new inode.
unfoldable pub initfs_create :
    Initfs → Inode → Dentry → ℕ → ℕ → ℕ → ℕ → Option (ℤ × (Initfs × Dentry × Inode))
initfs_create fs parent dentry mode entries dir dir_name =
    let inode : Inode = record {
      i_ino = 0;
      i_mode = 0;
      i_uid = 0;
      i_gid = 0;
      i_size = 0;
      i_sb = parent.i_sb;
    } in
    let zeroed = record fs { bytes = memset fs.bytes dir_name 0 dentry_name_max } in
    get_inode fs parent.i_ino >>= λ found.
    or_eio {A = Initfs × Dentry × Inode} (zeroed, dentry, inode) found
      λ iparent.
        let ino = fs.next in
        let rnode : InitfsInode = record {
          i_mode = mode;
          i_ino = ino;
          i_uid = 0;
          i_gid = 0;
          i_size = 0;
          i_nlink = 0;
          i_data = 0;
          i_entries = entries;
        } in
        let named = record fs {
          next = u64 (ino + 1);
          links = list_runtime_init fs.links entries;
          d_name = λ x. if dir == x then dir_name else fs.d_name x;
          d_ino = λ x. if dir == x then ino else fs.d_ino x;
          bytes = (strncpy zeroed.bytes dir_name dentry.d_name dentry_name_max).1;
        } in
        set_inode named ino rnode >>= λ stored. some (
          pos 0,
          (
            record stored { links = list_add stored.links iparent.i_entries dir },
            record dentry { d_ino = ino },
            record inode { i_ino = ino; i_mode = mode },
          ),
        )

-- `if (!order) a else b`
abbrev pub if_same : {A : Type 0} → ℤ → A → A → A
if_same (pos zero) a b = a
if_same (pos (suc n)) a b = b
if_same (negsuc n) a b = b

-- The loop of `initfs_lookup`, on fuel for the list and for a name, from `rdirent` on: the entry with
-- the name, or `none`.
unfoldable pub find_entry : ℕ → ℕ → Initfs → ℕ → ℕ → ℕ → Option (Option ℕ)
find_entry zero chars fs head name rdirent = none
find_entry (suc fuel) chars fs head name rdirent =
    let rest = find_entry fuel chars fs head name (fs.links.next rdirent) in
    if rdirent == head
    then some none
    else (strcmp chars fs.bytes (fs.d_name rdirent) name >>= λ order.
        if_same order (some (some rdirent)) rest)

-- What `initfs_lookup` returns for the entry that its loop found, and the dentry.
abbrev pub answer : Initfs → Inode → Dentry → Option ℕ → ℤ × Dentry
answer fs root entry none = (enoent, entry)
answer fs root entry (some rdirent) =
    (pos 0, record entry { d_ino = fs.d_ino rdirent; d_sb = root.i_sb })

-- What is returned, and the dentry after the call.
unfoldable pub initfs_lookup : ℕ → ℕ → Option Initfs → Inode → Dentry → Option (ℤ × Dentry)
initfs_lookup fuel chars s_data root entry = with_data entry s_data λ fs.
    get_inode fs root.i_ino >>= λ found. or_eio entry found λ rnode.
      find_entry fuel chars fs rnode.i_entries entry.d_name (fs.links.next rnode.i_entries)
      >>= λ hit. some (answer fs root entry hit)

unfoldable pub initfs_write_inode : Option Initfs → Inode → Option (ℤ × Option Initfs)
initfs_write_inode s_data node = with_data s_data s_data λ fs. get_inode fs node.i_ino >>= λ found.
    or_eio s_data found λ inode.
      set_inode fs node.i_ino (record inode {
        i_mode = node.i_mode;
        i_ino = node.i_ino;
        i_uid = node.i_uid;
        i_gid = node.i_gid;
        i_size = node.i_size;
      })
      >>= λ stored. some (pos 0, some stored)

unfoldable pub initfs_read_inode : Option Initfs → Inode → Option (ℤ × Inode)
initfs_read_inode s_data node = with_data node s_data λ fs. get_inode fs node.i_ino >>= λ found.
    or_eio node found λ inode. some (
      pos 0,
      record node {
        i_mode = inode.i_mode;
        i_ino = inode.i_ino;
        i_uid = inode.i_uid;
        i_gid = inode.i_gid;
        i_size = inode.i_size;
      },
    )

-- The root inode. `inodes` is not cleared: `old` is what was there before.
unfoldable pub initfs_mount : (ℕ → Option InitfsInode) → Initfs → ℕ → ℕ → Inode × Initfs
initfs_mount old fs sb entries = (
  record { i_ino = 0; i_mode = s_ifdir; i_uid = 0; i_gid = 0; i_size = 0; i_sb = sb },
  record fs {
    next = 1;
    inodes = λ i.
        if i == 0
        then some (record {
          i_mode = s_ifdir;
          i_ino = 0;
          i_uid = 0;
          i_gid = 0;
          i_size = 0;
          i_nlink = 0;
          i_data = 0;
          i_entries = entries;
        })
        else old i;
    links = list_runtime_init fs.links entries;
  },
)
