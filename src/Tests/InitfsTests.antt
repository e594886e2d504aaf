-- ===== src/Tests/InitfsTests.antt =====
-- fs/initfs/initfs.c with the name "ab" at 500, and a file at 3000.
use mint.Base.{
  ℕ, ◌+◌, ◌<◌, none, some, [], ◌∷◌, ◌≡◌, refl, arith, inl, inr, ◌==◌, if◌then◌else◌, pos,
}
use mint.Memory.{Memory}
use mint.Memory.Copy.{copied}
use mint.Ring.{list_runtime_init}
use mint.Ring.Add.{list_runtime_init-IsRing}
use mint.Strings.Chars.{IsString}
use mint.Strings.Compare.{IsChars}
use mint.Vfs.{Inode, Dentry, s_ifdir}
use mint.Initfs.{
  Initfs, InitfsInode, initfs_read, initfs_write, initfs_create, initfs_lookup, get_inode,
}
use mint.Initfs.Names.{IsDirectory, number, found, initfs_lookup-number}
use mint.Initfs.Create.{IsFresh, initfs_create-IsDirectory, initfs_lookup-initfs_create}
use mint.Initfs.Reads.{initfs_read-transferred}
use mint.Initfs.Contents.{AreBytes, IsFile, initfs_read-initfs_write, initfs_write_past}
use mint.Tests.RingTests.{blank}

abbrev bytes : Memory
bytes = λ x. if x == 500 then 97 else if x == 501 then 98 else 0

abbrev rnode : InitfsInode
rnode = record {
  i_mode = s_ifdir;
  i_ino = 0;
  i_uid = 0;
  i_gid = 0;
  i_size = 0;
  i_nlink = 0;
  i_data = 0;
  i_entries = 2000;
}

abbrev fs : Initfs
fs = record {
  inodes = λ i. if i == 0 then some rnode else none;
  next = 1;
  links = list_runtime_init blank 2000;
  d_name = λ _. 0;
  d_ino = λ _. 0;
  bytes = bytes;
}

abbrev root : Inode
root = record { i_ino = 0; i_mode = s_ifdir; i_uid = 0; i_gid = 0; i_size = 0; i_sb = 1 }

abbrev dentry : Dentry
dentry = record { d_sb = 0; d_ino = 0; d_name = 500 }

name-IsString : IsString bytes 500 (97 ∷ 98 ∷ [])
name-IsString =
    (refl, (λ e. absurd (omega (arith, e))), (refl, (λ e. absurd (omega (arith, e))), refl))

name-IsChars : IsChars (97 ∷ 98 ∷ [])
name-IsChars = (omega arith, omega arith, (omega arith, omega arith, tt))

root-IsDirectory : IsDirectory fs 2000 [] []
root-IsDirectory = record { ring = list_runtime_init-IsRing blank 2000; entries = tt }

fresh : IsFresh fs 2000 [] [] 2100 2200 2300
fresh = record {
  entries_ne_head = omega arith;
  entries_outside = tt;
  element_ne_head = omega arith;
  element_outside = tt;
  element_ne_entries = omega arith;
  away = tt;
}

initfs_lookup-number_example :
    initfs_lookup 1 256 (some fs) root dentry ≡ some (found root dentry (number (97 ∷ 98 ∷ []) []))
initfs_lookup-number_example =
    initfs_lookup-number 1 256 fs root dentry rnode [] [] (97 ∷ 98 ∷ []) refl root-IsDirectory
      name-IsString name-IsChars (omega arith) (omega arith)

initfs_create-IsDirectory_example :
    (fs' : Initfs) × (new : InitfsInode) × (initfs_create fs root dentry 7 2100 2200 2300
      ≡ some (
        pos 0,
        (
          fs',
          record dentry { d_ino = fs.next },
          record {
            i_ino = fs.next;
            i_mode = 7;
            i_uid = 0;
            i_gid = 0;
            i_size = 0;
            i_sb = root.i_sb;
          },
        ),
      ))
    × IsDirectory fs' rnode.i_entries (2200 ∷ []) ((97 ∷ 98 ∷ [], fs.next) ∷ [])
    × (get_inode fs' root.i_ino ≡ some (some rnode))
    × (get_inode fs' fs.next ≡ some (some new))
    × (new.i_mode ≡ 7)
    × (fs'.next ≡ fs.next + 1)
    × IsDirectory fs' new.i_entries [] []
    × IsString fs'.bytes dentry.d_name (97 ∷ 98 ∷ [])
initfs_create-IsDirectory_example =
    initfs_create-IsDirectory fs root dentry 7 2100 2200 2300 rnode [] [] (97 ∷ 98 ∷ []) refl
      (λ e. absurd (omega (arith, e))) (omega arith) root-IsDirectory fresh name-IsString
      name-IsChars (omega arith) (inr (omega arith))

initfs_lookup-initfs_create_example :
    (fs' : Initfs) × (dentry' : Dentry) × (inode : Inode) × (initfs_create fs root dentry 7 2100
        2200 2300
      ≡ some (pos 0, (fs', dentry', inode)))
    × (initfs_lookup 2 256 (some fs') root dentry
        ≡ some (pos 0, record dentry { d_ino = inode.i_ino; d_sb = root.i_sb }))
initfs_lookup-initfs_create_example =
    initfs_lookup-initfs_create 2 256 fs root dentry 7 2100 2200 2300 rnode [] [] (97 ∷ 98 ∷ [])
      refl (λ e. absurd (omega (arith, e))) (omega arith) root-IsDirectory fresh name-IsString
      name-IsChars (omega arith) (inr (omega arith)) (omega arith) (omega arith)

-- The inode 3 is a file with the first byte of the name.
abbrev file : InitfsInode
file = record rnode { i_ino = 3; i_mode = 0; i_size = 1; i_data = 500 }

abbrev store : Initfs
store = record fs { inodes = λ i. if i == 3 then some file else none }

abbrev open_inode : Inode
open_inode = record root { i_ino = 3; i_size = 1 }

-- Blocks of different sizes are at different places.
abbrev heap : ℕ → ℕ
heap n = 4000 + n

file-IsFile : IsFile store 3 file (97 ∷ [])
file-IsFile = record {
  node = refl;
  size = refl;
  bytes = (refl, tt);
  absent = λ e. absurd (omega (arith, e));
}

initfs_read-transferred_example :
    (fs' : Initfs) × (initfs_read (some store) 3 600 5 0 ≡ some (pos 1, some fs'))
    × ((x : ℕ) → fs'.bytes x ≡ copied store.bytes 600 (file.i_data + 0) 1 x)
initfs_read-transferred_example =
    initfs_read-transferred store 3 600 5 0 1 file refl (omega arith) (omega arith) refl
      (inl (omega arith))

initfs_read-initfs_write_example :
    (fs' : Initfs) × (fs'' : Initfs) × (node' : Inode) × (initfs_write heap
        (some store)
        open_inode
        500
        2
        1
      ≡ some (pos 2, (some fs', node')))
    × (initfs_read (some fs') 3 600 3 0 ≡ some (pos 3, some fs''))
    × AreBytes fs''.bytes 600 (97 ∷ 97 ∷ 98 ∷ [])
initfs_read-initfs_write_example =
    initfs_read-initfs_write heap store open_inode 4003 500 600 file (97 ∷ []) (97 ∷ 98 ∷ []) refl
      file-IsFile (inl (omega arith)) (inl (omega arith)) (refl, (refl, tt)) (omega arith)
      (omega arith) (inr (omega arith))

initfs_write_past_example :
    (fs' : Initfs) × (node' : Inode) × (rnode' : InitfsInode) × (initfs_write heap
        (some store)
        open_inode
        500
        1
        0
      ≡ some (pos 1, (some fs', node')))
    × (get_inode fs' 3 ≡ some (some rnode'))
    × (rnode'.i_data ≡ 4001)
    × (1 + 0 < rnode'.i_size)
initfs_write_past_example =
    initfs_write_past heap store open_inode 500 1 0 file refl (omega arith) (omega arith)
