-- ===== src/Filesystems.antt =====
-- fs/fs.c: the registered file systems. A file system goes by the address of its `list`. `none` is fuel run
-- out, and the inner one is `NULL`.
pub mod Lookup
use mint.Base.{ℕ, zero, suc, Option, none, some, ◌>>=◌, ◌==◌, if◌then◌else◌, ℤ, pos}
use mint.Ring.{Links, list_add, list_delete}
use mint.Memory.{Memory}
use mint.Strings.{strcmp}
use mint.Initfs.{if_same}

-- The `name` of the file system at every address, the bytes in memory, and the head of `fs_list`.
pub record Filesystems : Type 0 where
  pub links : Links
  pub name : ℕ → ℕ
  pub bytes : Memory
  pub fs_list : ℕ

-- The state, with what is returned. The line that is printed is left out.
unfoldable pub filesystem_register : Filesystems → ℕ → ℤ × Filesystems
filesystem_register s fs = (pos 0, record s { links = list_add s.links s.fs_list fs })

unfoldable pub filesystem_unregister : Filesystems → ℕ → ℤ × Filesystems
filesystem_unregister s fs = (pos 0, record s { links = list_delete s.links fs })

-- The loop of `filesystem_get`, on fuel for the list and for a name, from `fs` on.
unfoldable pub find_filesystem : ℕ → ℕ → Filesystems → ℕ → ℕ → Option (Option ℕ)
find_filesystem zero chars s name fs = none
find_filesystem (suc fuel) chars s name fs =
    let rest = find_filesystem fuel chars s name (s.links.next fs) in
    if fs == s.fs_list
    then some none
    else (strcmp chars s.bytes (s.name fs) name >>= λ order. if_same order (some (some fs)) rest)

unfoldable pub filesystem_get : ℕ → ℕ → Filesystems → ℕ → Option (Option ℕ)
filesystem_get fuel chars s name = find_filesystem fuel chars s name (s.links.next s.fs_list)
