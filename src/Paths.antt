-- ===== src/Paths.antt =====
-- fs/path.c, with fs/dentry.c and fs/inode.c: from a path to an inode. `slash` and `empty` are the
-- addresses of the literals "/" and "". `none` is fuel run out, but for a pointer that may be `NULL`.
pub mod Parts
pub mod Create
pub mod Names
pub mod Tree
pub mod Step
pub mod Walk
use mint.Base.{
  ℕ, zero, suc, ◌+◌, ◌-◌, ◌^◌, ◌||◌, Bool, not, bit_and, List, [], get_or, Option, none, some,
  ◌>>=◌, ltb, ◌==◌, if◌then◌else◌, ℤ, pos, negsuc,
}
use mint.Vfs.{Inode, Dentry, dentry_name_max, s_ifmt, s_ifdir}
use mint.Memory.{Memory, write, memset}
use mint.Strings.{strlen, strncpy, strdup, Token, strtok_r}

-- `'/'`
abbrev pub slash_char : ℕ
slash_char = 47

-- The first loop of `dirname`, with `p` at `path + n`: where `p` ends, or `none` if `path` is returned.
unfoldable pub strip_slashes : Memory → ℕ → ℕ → Memory × Option ℕ
strip_slashes m path zero = if m path == slash_char then (m, none) else (m, some 0)
strip_slashes m path (suc n) =
    let rest = strip_slashes (write m (path + suc n) 0) path n in
    if m (path + suc n) == slash_char then rest else (m, some (suc n))

-- The second loop: where `p` ends, or `none` for `p < path`.
unfoldable pub last_slash : Memory → ℕ → ℕ → Option ℕ
last_slash m path zero = if m path == slash_char then some 0 else none
last_slash m path (suc n) =
    let rest = last_slash m path n in if m (path + suc n) == slash_char then some (suc n) else rest

-- The last line of `dirname`.
abbrev pub cut_at : Memory → ℕ → ℕ → Option ℕ → ℕ × Memory
cut_at m path slash none = (slash, m)
cut_at m path slash (some zero) = (slash, m)
cut_at m path slash (some (suc n)) = (path, write m (path + suc n) 0)

-- From the end of the first loop on.
abbrev pub dir_part : ℕ → ℕ → Memory × Option ℕ → ℕ × Memory
dir_part path slash (m, none) = (path, m)
dir_part path slash (m, some n) = cut_at m path slash (last_slash m path n)

-- `ret` is what `strdup` gets from `kmalloc`.
unfoldable pub dirname : ℕ → Memory → ℕ → ℕ → ℕ → Option (ℕ × Memory)
dirname fuel m slash ret original = strdup fuel m ret original >>= λ (path, copied).
    if path == 0 || copied path == 0
    then some (slash, copied)
    else (strlen fuel copied path >>= λ n.
        some (dir_part path slash (strip_slashes copied path (n - 1))))

-- The loop of `basename`.
unfoldable pub base_from : ℕ → Memory → ℕ → ℕ → Option ℕ
base_from zero m name base = none
base_from (suc fuel) m name base =
    let rest = base_from fuel m (name + 1) (if m name == slash_char then name + 1 else base) in
    if m name == 0 then some base else rest

abbrev pub basename : ℕ → Memory → ℕ → Option ℕ
basename fuel m name = base_from fuel m name name

-- The bytes in memory, the inode at every address with the `mp_inode`s of its `i_mp`, the first one first,
-- and a state for the rest.
pub record Vfs (A : Type 0) : Type 0 where
  pub bytes : Memory
  pub inodes : ℕ → Inode
  pub i_mp : ℕ → List ℕ
  pub state : A

-- What the file systems behind the function pointers do, the blocks of `kmalloc` with what a dentry in one
-- holds, and the hash map `inode_cache` for a super block and a number. An inode goes by its address.
pub record Operations (A : Type 0) : Type 0 where
  pub kmalloc : Vfs A → ℕ × Vfs A
  pub raw : ℕ → Dentry
  pub hashmap_get : A → ℕ → ℕ → ℕ
  pub hashmap_set : A → ℕ → ℕ → ℕ → A
  pub alloc_inode : Option (Vfs A → ℕ → ℕ × Vfs A)
  pub read_inode : Option (Vfs A → ℕ → Vfs A)
  pub lookup : Vfs A → ℕ → Dentry → Option (ℤ × (Dentry × Vfs A))
  pub create : Vfs A → ℕ → Dentry → ℕ → ℕ → Option (ℕ × (Dentry × Vfs A))

abbrev pub o_creat : ℕ
o_creat = 0x200

abbrev pub s_isdir : ℕ → Bool
s_isdir m = bit_and m s_ifmt == s_ifdir

-- A test for `NULL`.
abbrev pub maybe : {A B : Type 0} → Option A → B → (A → B) → B
maybe none b f = b
maybe (some a) b f = f a

-- `if (lookup(...) < 0)`
abbrev pub unless_negative : {A : Type 0} → ℤ → Dentry × Vfs A → Option Dentry × Vfs A
unless_negative (pos n) (dentry, v) = (some dentry, v)
unless_negative (negsuc n) (dentry, v) = (none, v)

abbrev pub no_inode : Inode
no_inode = record { i_ino = 0; i_mode = 0; i_uid = 0; i_gid = 0; i_size = 0; i_sb = 0 }

abbrev pub store_inode : {A : Type 0} → Vfs A → ℕ → Inode → Vfs A
store_inode v at inode = record v { inodes = λ x. if at == x then inode else v.inodes x }

-- `NULL` is followed where `none` is returned.
unfoldable pub path_resolve_mountpoint : {A : Type 0} → Vfs A → ℕ → Option ℕ
path_resolve_mountpoint v original =
    if original == 0 then none else some (get_or (v.i_mp original) 0 original)

-- The inode, the dentry that is stored for the caller, and the state.
abbrev pub Resolved : Type 0 → Type 0
Resolved A = ℕ × (Option Dentry × Vfs A)

module _ {A : Type 0} (ops : Operations A) where
  unfoldable pub dentry_allocate : Vfs A → Option Dentry × Vfs A
  dentry_allocate v =
      let (dentry, v') = ops.kmalloc v in
      if dentry == 0 then (none, v') else (
        some (record { d_sb = 0; d_ino = 0; d_name = dentry }),
        record v' { bytes = memset v'.bytes dentry 0 dentry_name_max },
      )

  unfoldable pub dentry_lookup : Vfs A → ℕ → ℕ → Option (Option Dentry × Vfs A)
  dentry_lookup v inode name =
      let (dentry, v') = dentry_allocate v in
      if inode == 0 || name == 0
      then some (none, v)
      else (maybe dentry (some (none, v')) λ d.
          ops.lookup (record v' { bytes = (strncpy v'.bytes d.d_name name dentry_name_max).1 })
            inode d
          >>= λ (ret, after). some (unless_negative ret after))

  abbrev pub inode_check_cache : Vfs A → ℕ → ℕ → ℕ
  inode_check_cache v sb ino = ops.hashmap_get v.state sb ino

  abbrev pub inode_insert_cache : Vfs A → ℕ → ℕ → Vfs A
  inode_insert_cache v sb inode = record v {
    state = ops.hashmap_set v.state sb (v.inodes inode).i_ino inode;
  }

  unfoldable pub inode_allocate : Vfs A → ℕ → ℕ × Vfs A
  inode_allocate v sb =
      let (inode, v') = ops.kmalloc v in
      maybe ops.alloc_inode
        (if inode == 0 then (inode, v') else (
          inode,
          record (store_inode v' inode no_inode) {
            i_mp = λ x. if inode == x then [] else v'.i_mp x;
          },
        ))
        λ alloc_inode. alloc_inode v sb

  -- From a dentry that is not `NULL`.
  unfoldable pub inode_resolve_dentry : Vfs A → Dentry → ℕ × Vfs A
  inode_resolve_dentry v dentry =
      let cached = inode_check_cache v dentry.d_sb dentry.d_ino in
      let (inode, v') = inode_allocate v dentry.d_sb in
      let found =
        store_inode v' inode
          (record (v'.inodes inode) { i_ino = dentry.d_ino; i_sb = dentry.d_sb }) in
      if not (cached == 0)
      then (cached, v)
      else if inode == 0
      then (0, v')
      else (inode, maybe ops.read_inode found λ read_inode. read_inode found inode)

  module _ (chars slash empty : ℕ) where
    -- The loop of `__path_resolve_dentry`, on fuel.
    unfoldable pub walk_path : ℕ → Vfs A → ℕ → ℕ → Option Dentry → Option (Option Dentry × Vfs A)
    walk_path zero v inode str dentry = none
    walk_path (suc fuel) v inode str dentry =
        if inode == 0
        then some (dentry, v)
        else (strtok_r chars v.bytes empty (some str) slash 0 >>= λ t.
            let v₁ = record v { bytes = t.memory } in
            maybe t.token (some (dentry, v₁)) λ name. dentry_lookup v₁ inode name >>= λ (found, v₂).
            maybe found (some (none, v₂)) λ d.
              let (next, v₃) = inode_resolve_dentry v₂ d in
              path_resolve_mountpoint v₃ next >>= λ mounted.
              walk_path fuel v₃ mounted t.lasts (some d))

    -- `__path_resolve_dentry`
    unfoldable pub path_resolve_dentry : Vfs A → ℕ → ℕ → Option (Option Dentry × Vfs A)
    path_resolve_dentry v start path =
        if start == 0 || path == 0 then some (none, v) else walk_path chars v start path none

    -- `__path_resolve`
    unfoldable pub path_resolve_existing : Vfs A → ℕ → ℕ → Option (Resolved A)
    path_resolve_existing v start path = path_resolve_dentry v start path >>= λ (found, v').
        maybe found (some (0, (none, v')))
          λ d. let (inode, v'') = inode_resolve_dentry v' d in some (inode, (some d, v''))

    -- The first part of `path_resolve`: where to start, and with which path.
    abbrev pub enter : Vfs A → ℕ → ℕ → ℕ → (ℕ → ℕ → Option (Resolved A)) → Option (Resolved A)
    enter v root cwd path rest =
        if v.bytes path == slash_char
        then (if v.bytes (path + 1) == 0 then some (root, (none, v)) else rest root (path + 1))
        else rest cwd path

    -- The end of `__path_resolve_create`: the name is not in the directory.
    abbrev pub create_named : Vfs A → ℕ → ℕ → ℕ → ℕ → Option (Resolved A)
    create_named v dir filename flags mode =
        let (block, v') = ops.kmalloc v in
        let named = record v' { bytes = (strncpy v'.bytes block filename dentry_name_max).1 } in
        ops.create named dir (record (ops.raw block) { d_name = block }) flags mode
        >>= λ (ret, (dentry, v'')).
            if ret == 0
            then none
            else some (ret, (some dentry, inode_insert_cache v'' (v''.inodes ret).i_sb ret))

    -- From the directory on.
    abbrev pub create_in : ℕ → ℕ → ℕ → Resolved A → Option (Resolved A)
    create_in filename flags mode (dir, (other, v)) =
        if dir == 0 || not (s_isdir (v.inodes dir).i_mode)
        then some (0, (none, v))
        else (dentry_lookup v dir filename >>= λ (found, v').
            maybe found (create_named v' dir filename flags mode)
              λ d. let (ret, v'') = inode_resolve_dentry v' d in some (ret, (none, v'')))

    -- `__path_resolve_create`. The directory is looked up without `O_CREAT`.
    unfoldable pub path_resolve_create : Vfs A → ℕ → ℕ → ℕ → ℕ → ℕ → ℕ → Option (Resolved A)
    path_resolve_create v root cwd start path flags mode =
        let (ret, v') = ops.kmalloc v in
        let dir_and_name = dirname chars v'.bytes slash ret path >>= λ (dirpath, bytes).
        basename chars bytes path >>= λ filename.
        let v'' = record v' { bytes = bytes } in
        enter v'' root cwd dirpath (path_resolve_existing v'') >>= λ dir.
        create_in filename flags mode dir in
        if start == 0 || path == 0 then some (0, (none, v)) else dir_and_name

    -- With the root and the working directory of the current process.
    unfoldable pub path_resolve : Vfs A → ℕ → ℕ → ℕ → ℕ → ℕ → Option (Resolved A)
    path_resolve v root cwd path flags mode = enter v root cwd path λ start rest.
        if bit_and flags o_creat == 0
        then path_resolve_existing v start rest
        else path_resolve_create v root cwd start rest flags mode

    -- fs/file.c: the inode and the dentry of the new file, or `NULL`.
    unfoldable pub file_open : Vfs A → ℕ → ℕ → ℕ → ℕ → ℕ → Option (Option (ℕ × Dentry) × Vfs A)
    file_open v root cwd name flags mode =
        path_resolve v root cwd name flags mode >>= λ (inode, (dentry, v')).
        let (file, v'') = ops.kmalloc v' in
        if inode == 0
        then some (none, v')
        else maybe dentry (some (none, v'))
            λ d. if file == 0 then some (none, v'') else some (some (inode, d), v'')
