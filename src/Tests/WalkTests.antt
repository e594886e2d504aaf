-- ===== src/Tests/WalkTests.antt =====
-- The walk of fs/path.c along "a/b" at 501 in the file system of fs/initfs/initfs.c, with the literal "/" at 600: the
-- inode 0 has the entry "a" with number 1, and that one the entry "b" with number 2.
use mathlib.Core.Option.{none-ne-some}
use mathlib.Core.List.{List-discrete}
use native.Mathlib.Decide.{ℕ_discrete}
use mint.Base.{
  ℕ, zero, suc, ◌≤◌, ◌<◌, List, [], ◌∷◌, length, Option, none, some, ◌>>=◌, ◌≡◌, ◌≢◌, refl, sym, ap,
  ◌∙◌, arith, inr, true, ltb, ==_refl, ◌==◌, if◌then◌else◌, ℤ,
}
use mint.Memory.{Memory}
use mint.Strings.Chars.{IsString}
use mint.Vfs.{Inode, Dentry, s_ifdir}
use mint.Initfs.{Initfs, InitfsInode, get_inode, max_inodes, initfs_lookup, initfs_read_inode}
use mint.Initfs.Names.{
  Directory, IsDirectory, number, found, pick_yes, pick_no, number_first, initfs_lookup-number,
}
use mint.Paths.{Vfs, Operations, Resolved, maybe, store_inode, path_resolve_existing}
use mint.Paths.Names.{IsName, name-IsChars}
use mint.Paths.Tree.{Key, Tree, follow, Answers, Stands, Serves}
use mint.Paths.Walk.{Opens, path_resolve_existing-follow}

abbrev bytes : Memory
bytes = λ x.
    if x == 501
    then 97
    else if x == 502
    then 47
    else if x == 503
    then 98
    else if x == 600
    then 47
    else if x == 20000
    then 97
    else if x == 20010
    then 98
    else 0

abbrev node : ℕ → ℕ → ℕ → InitfsInode
node ino mode entries = record {
  i_mode = mode;
  i_ino = ino;
  i_uid = 0;
  i_gid = 0;
  i_size = 0;
  i_nlink = 0;
  i_data = 0;
  i_entries = entries;
}

abbrev table : ℕ → Option InitfsInode
table zero = some (node 0 s_ifdir 2000)
table (suc zero) = some (node 1 s_ifdir 2010)
table (suc (suc zero)) = some (node 2 7 2020)
table (suc (suc (suc n))) = none

abbrev dirs : ℕ → Directory
dirs zero = (97 ∷ [], 1) ∷ []
dirs (suc zero) = (98 ∷ [], 2) ∷ []
dirs (suc (suc n)) = []

-- The circles 2000, 2100 and 2010, 2110 and 2020.
abbrev turn : ℕ → ℕ
turn x =
    if x == 2000
    then 2100
    else if x == 2100
    then 2000
    else if x == 2010
    then 2110
    else if x == 2110
    then 2010
    else x

abbrev store : Memory → Initfs
store m = record {
  inodes = table;
  next = 3;
  links = record { next = turn; prev = turn };
  d_name = λ x. if x == 2100 then 20000 else 20010;
  d_ino = λ x. if x == 2100 then 1 else 2;
  bytes = m;
}

abbrev filled : Vfs ℕ → ℕ → Option (ℤ × Inode) → Vfs ℕ
filled v inode none = v
filled v inode (some (ret, n)) = store_inode v inode n

abbrev read : Vfs ℕ → ℕ → Vfs ℕ
read v inode = filled v inode (initfs_read_inode (some (store v.bytes)) (v.inodes inode))

abbrev ops : Operations ℕ
ops = record {
  kmalloc = λ v. (9000, v);
  raw = λ block. record { d_sb = 0; d_ino = 0; d_name = block };
  hashmap_get = λ state sb ino. 0;
  hashmap_set = λ state sb ino inode. state;
  alloc_inode = none;
  read_inode = some read;
  lookup = λ v inode dentry.
      initfs_lookup 2 256 (some (store v.bytes)) (v.inodes inode) dentry >>= λ (ret, dentry').
      some (ret, (dentry', v));
  create = λ v inode dentry flags mode. none;
}

abbrev tree : Tree
tree k s = number s (dirs k.1) >>= λ ino. some (k.0, ino)

abbrev mode : Key → Option ℕ
mode k = table k.1 >>= λ r. some r.i_mode

-- The names of the entries.
abbrev HasNames : Vfs ℕ → Type 0
HasNames v = (v.bytes 20000 ≡ 97) × (v.bytes 20001 ≡ 0) × (v.bytes 20010 ≡ 98) × (v.bytes 20011 ≡ 0)

nonzero : (n : ℕ) → suc n ≢ 0
nonzero n z = absurd (omega (arith, z))

differ : (m n : ℕ) → m < n → m ≢ n
differ m n lt e = absurd (omega (arith, lt, e))

-- An inode that is there, and its entries.
record IsNode (m : Memory) (ino : ℕ) (r : InitfsInode) : Type 0 where
  node : get_inode (store m) ino ≡ some (some r)
  xs : List ℕ
  directory : IsDirectory (store m) r.i_entries xs (dirs ino)
  few : length xs < 2

is_node :
    (v : Vfs ℕ) (ino n : ℕ)
    → HasNames v
    → mode (0, ino) ≡ some n
    → (r : InitfsInode) × IsNode v.bytes ino r
is_node v zero n (a, az, b, bz) e = (
  node 0 s_ifdir 2000,
  record {
    node = refl;
    xs = 2100 ∷ [];
    directory = record {
      ring = record {
        chain = (refl, refl, (refl, refl));
        outside = (differ 2000 2100 (omega arith), tt);
        distinct = (tt, tt);
      };
      entries = ((a, nonzero 96, az), (omega arith, omega arith, tt), omega arith, refl, tt);
    };
    few = omega arith;
  },
)
is_node v (suc zero) n (a, az, b, bz) e = (
  node 1 s_ifdir 2010,
  record {
    node = refl;
    xs = 2110 ∷ [];
    directory = record {
      ring = record {
        chain = (refl, refl, (refl, refl));
        outside = (differ 2010 2110 (omega arith), tt);
        distinct = (tt, tt);
      };
      entries = ((b, nonzero 97, bz), (omega arith, omega arith, tt), omega arith, refl, tt);
    };
    few = omega arith;
  },
)
is_node v (suc (suc zero)) n i e = (
  node 2 7 2020,
  record {
    node = refl;
    xs = [];
    directory = record {
      ring = record { chain = (refl, refl); outside = tt; distinct = tt };
      entries = tt;
    };
    few = omega arith;
  },
)
is_node v (suc (suc (suc ino))) n i e = absurd (none-ne-some n e)

found-Answers :
    (root : Inode) (d : Dentry) (sb : ℕ) (n : Option ℕ)
    → root.i_sb ≡ sb
    → Answers (n >>= λ ino. some (sb, ino)) (found root d n).0 (found root d n).1
found-Answers root d sb none e = (1, refl)
found-Answers root d sb (some ino) e = ((0, refl), (e, refl))

looks :
    (v : Vfs ℕ) (inode : ℕ) (k : Key) (d : Dentry) (s : List ℕ)
    → HasNames v
    → Stands mode v inode k
    → 9000 ≤ d.d_name
    → IsString v.bytes d.d_name s
    → IsName s
    → (ret : ℤ) × (d' : Dentry) × (v' : Vfs ℕ) × (ops.lookup v inode d ≡ some (ret, (d', v')))
      × Answers (tree k s) ret d'
      × ((x : ℕ) → x < 9000 → v'.bytes x ≡ v.bytes x)
      × HasNames v'
looks v inode k d s i (ne, sb, ino, has_mode) high is ok =
    let (r, there) = is_node v k.1 (v.inodes inode).i_mode i has_mode in
    let root = v.inodes inode in
    let e =
      initfs_lookup-number 2 256 (store v.bytes) root d r there.xs (dirs k.1) s
        (ap (get_inode (store v.bytes)) ino ∙ there.node) there.directory is (name-IsChars s ok)
        (omega arith) there.few in
    let (ret, d') = found root d (number s (dirs k.1)) in
    (ret, d', v, rw e refl, found-Answers root d k.0 (number s (dirs k.1)) sb, (λ x lt. refl), i)

single :
    (sb ino : ℕ) (name s : List ℕ) (k : Key)
    → (number s ((name, ino) ∷ []) >>= λ n. some (sb, n)) ≡ some k
    → k.1 ≡ ino
single sb ino name s k e = elim (List-discrete ℕ_discrete name s) [
  | yes p ↦
      ap (λ (o : Option Key). maybe o ino (λ q. q.1))
        (sym (rw (pick_yes (List-discrete ℕ_discrete name s) ino none p) at e))
  | no ne ↦
      absurd (none-ne-some k (rw (pick_no (List-discrete ℕ_discrete name s) ino none ne) at e))
]

entry_table :
    (sb dir : ℕ) (k : Key) (s : List ℕ)
    → tree (sb, dir) s ≡ some k
    → (r : InitfsInode) × (table k.1 ≡ some r) × (r.i_ino ≡ k.1) × (ltb k.1 max_inodes ≡ true)
entry_table sb zero k s e =
    let at : k.1 ≡ 1 = single sb 1 (97 ∷ []) s k e in
    (node 1 s_ifdir 2010, rw at refl, sym at, rw at refl)
entry_table sb (suc zero) k s e =
    let at : k.1 ≡ 2 = single sb 2 (98 ∷ []) s k e in
    (node 2 7 2020, rw at refl, sym at, rw at refl)
entry_table sb (suc (suc dir)) k s e = absurd (none-ne-some k e)

reads :
    (v : Vfs ℕ) (inode : ℕ) (dir k : Key) (s : List ℕ)
    → HasNames v
    → inode ≢ 0
    → tree dir s ≡ some k
    → (v.inodes inode).i_sb ≡ k.0
    → (v.inodes inode).i_ino ≡ k.1
    → let v' = read v inode in
      Stands mode v' inode k
      × (v'.i_mp inode ≡ v.i_mp inode)
      × ((x : ℕ) → x < 9000 → v'.bytes x ≡ v.bytes x)
      × HasNames v'
unfolding initfs_read_inode
reads v inode dir k s i ne e sb ino =
    let (r, there, same, below) = entry_table dir.0 dir.1 k s e in
    rw (ino, below, there)
      (
        (ne, rw (==_refl inode) sb, rw (==_refl inode) same, rw (==_refl inode) refl),
        refl,
        (λ x lt. refl),
        i,
      )

serves : Serves ops 9000 HasNames tree (λ k. k) mode
serves = record {
  below = λ v m same i. (
    same 20000 (omega arith) ∙ i.0,
    same 20001 (omega arith) ∙ i.1,
    same 20010 (omega arith) ∙ i.2,
    same 20011 (omega arith) ∙ i.3,
  );
  block_at = λ v i. (omega arith, (λ x. refl), (λ x. refl));
  name_in = λ v m i same.
      (same 20000 refl ∙ i.0, same 20001 refl ∙ i.1, same 20010 refl ∙ i.2, same 20011 refl ∙ i.3);
  inode_in = λ v inodes i_mp i same also. i;
  cached = λ v k i ne. absurd (ne refl);
  uncached = λ v k i e. refl;
  looks = looks;
  no_alloc_inode = refl;
  read = read;
  read_inode = refl;
  reads = reads;
}

abbrev vfs : Vfs ℕ
vfs = record {
  bytes = bytes;
  inodes = λ _. record { i_ino = 0; i_mode = s_ifdir; i_uid = 0; i_gid = 0; i_size = 0; i_sb = 1 };
  i_mp = λ _. [];
  state = 0;
}

-- The tree leads to the number 2.
followed : follow tree (λ k. k) (1, 0) (1, 0) ((97 ∷ []) ∷ (98 ∷ []) ∷ []) ≡ some (1, 2)
followed = rw (number_first (97 ∷ []) 1 [], number_first (98 ∷ []) 2 []) refl

path_resolve_existing-follow_example :
    (r : Resolved ℕ) × (path_resolve_existing ops 20 600 650 vfs 7 501 ≡ some r)
    × Opens mode (follow tree (λ k. k) (1, 0) (1, 0) ((97 ∷ []) ∷ (98 ∷ []) ∷ [])) r
path_resolve_existing-follow_example =
    path_resolve_existing-follow ops 20 600 650 9000 HasNames tree (λ k. k) mode serves
      (omega arith) vfs 7 501 (1, 0) (97 ∷ []) ((98 ∷ []) ∷ []) (refl, refl, refl, refl)
      (nonzero 6, refl, refl, refl) (omega arith)
      (
        ((omega arith, omega arith, tt), ((λ z. absurd (omega (arith, z))), tt), omega arith),
        (((omega arith, omega arith, tt), ((λ z. absurd (omega (arith, z))), tt), omega arith), tt),
      )
      (refl, nonzero 46, refl) (inr (omega arith))
      (refl, nonzero 96, (refl, nonzero 46, (refl, nonzero 97, refl))) (omega arith) (omega arith)
