-- ===== src/Tests/PathsTests.antt =====
-- fs/path.c with the path "/a/b" at 500, the literal "/" at 600, and a file system that has every name.
use mint.Base.{ℕ, ◌+◌, [], none, some, ◌==◌, if◌then◌else◌, pos}
use mint.Memory.{Memory}
use mint.Paths.{Vfs, Operations, no_inode}

abbrev bytes : Memory
bytes = λ x.
    if x == 500
    then 47
    else if x == 501
    then 97
    else if x == 502
    then 47
    else if x == 503
    then 98
    else if x == 600
    then 47
    else 0

abbrev ops : Operations ℕ
ops = record {
  kmalloc = λ v. (9000, v);
  raw = λ block. record { d_sb = 0; d_ino = 0; d_name = block };
  hashmap_get = λ state sb ino. 8000 + ino;
  hashmap_set = λ state sb ino inode. state;
  alloc_inode = none;
  read_inode = none;
  lookup = λ v inode dentry. some (pos 0, (record dentry { d_ino = v.bytes dentry.d_name }, v));
  create = λ v inode dentry flags mode. none;
}

abbrev vfs : Vfs ℕ
vfs = record { bytes = bytes; inodes = λ _. no_inode; i_mp = λ _. []; state = 0 }
