-- ===== src/Paths/Tree.antt =====
-- What the walk of fs/path.c relies on: the functions of the file systems do what a tree of names says.
use mint.Base.{
  ℕ, ◌+◌, ◌≤◌, ◌<◌, List, [], ◌∷◌, length, get_or, Option, none, some, false, ◌>>=◌, ◌&&◌, ◌≡◌, ◌≢◌,
  ◌∙◌, arith, ltb, leb, ℤ, pos, negsuc,
}
use mint.Memory.{Memory}
use mint.Strings.Chars.{IsString}
use mint.Vfs.{Inode, Dentry, dentry_name_max}
use mint.Paths.{Vfs, Operations}
use mint.Paths.Names.{IsName}

-- A super block and a number.
abbrev pub Key : Type 0
Key = ℕ × ℕ

-- From the key of a directory, the key of the entry with a name.
abbrev pub Tree : Type 0
Tree = Key → List ℕ → Option Key

-- The key of the entry that names lead to in turn, the keys on the way taken through mount points: `last` is
-- the entry before.
abbrev pub follow : Tree → (Key → Key) → Key → Key → List (List ℕ) → Option Key
follow tree cover last here [] = some last
follow tree cover last here (name ∷ names) =
    tree here name >>= λ next. follow tree cover next (cover next) names

-- One memory is another below an address.
abbrev pub AgreeBelow : ℕ → Memory → Memory → Type 0
AgreeBelow limit m m' = (x : ℕ) → x < limit → m' x ≡ m x

-- The inode at an address has a key, and the mode of the key: there is none for a key without an inode.
abbrev pub Stands : {A : Type 0} → (Key → Option ℕ) → Vfs A → ℕ → Key → Type 0
Stands mode v inode k =
    (inode ≢ 0)
    × ((v.inodes inode).i_sb ≡ k.0)
    × ((v.inodes inode).i_ino ≡ k.1)
    × (mode k ≡ some (v.inodes inode).i_mode)

abbrev pub HasKey : Dentry → Key → Type 0
HasKey d k = (d.d_sb ≡ k.0) × (d.d_ino ≡ k.1)

-- A negative number, or the dentry of the entry.
abbrev pub Answers : Option Key → ℤ → Dentry → Type 0
Answers none ret d = (n : ℕ) × (ret ≡ negsuc n)
Answers (some k) ret d = ((n : ℕ) × (ret ≡ pos n)) × HasKey d k

-- What the code relies on in states with `I`. The limit is above the paths and below the blocks.
pub record Serves {A : Type 0} (ops : Operations A) (limit : ℕ) (I : Vfs A → Type 0) (tree : Tree)
    (cover : Key → Key) (mode : Key → Option ℕ) : Type 0 where
  -- Paths are no concern of the file systems.
  pub below :
      (v : Vfs A) (m : Memory)
      → ((x : ℕ) → limit ≤ x → m x ≡ v.bytes x)
      → I v
      → I (record v { bytes = m })
  -- `kmalloc` has space and changes no memory in use, and what is in its block is no concern of the file
  -- systems.
  pub block_at :
      (v : Vfs A)
      → I v
      → let (block, v') = ops.kmalloc v in
        (limit ≤ block) × ((x : ℕ) → v'.bytes x ≡ v.bytes x) × ((x : ℕ) → v'.inodes x ≡ v.inodes x)
  pub name_in :
      (v : Vfs A) (m : Memory)
      → I v
      → let (block, v') = ops.kmalloc v in
        ((x : ℕ) → (leb block x && ltb x (block + dentry_name_max)) ≡ false → m x ≡ v'.bytes x)
        → I (record v' { bytes = m })
  pub inode_in :
      (v : Vfs A) (inodes : ℕ → Inode) (i_mp : ℕ → List ℕ)
      → I v
      → let (block, v') = ops.kmalloc v in
        ((x : ℕ) → block ≢ x → inodes x ≡ v'.inodes x)
        → ((x : ℕ) → block ≢ x → i_mp x ≡ v'.i_mp x)
        → I (record v' { inodes = inodes; i_mp = i_mp })
  -- What is in the cache has its key and leads to what covers it, and what is not is not covered.
  pub cached :
      (v : Vfs A) (k : Key)
      → I v
      → let inode = ops.hashmap_get v.state k.0 k.1 in
        inode ≢ 0 → Stands mode v inode k × Stands mode v (get_or (v.i_mp inode) 0 inode) (cover k)
  pub uncached : (v : Vfs A) (k : Key) → I v → ops.hashmap_get v.state k.0 k.1 ≡ 0 → cover k ≡ k
  -- The functions of the file systems do what the tree says.
  pub looks :
      (v : Vfs A) (inode : ℕ) (k : Key) (d : Dentry) (s : List ℕ)
      → I v
      → Stands mode v inode k
      → limit ≤ d.d_name
      → IsString v.bytes d.d_name s
      → IsName s
      → (ret : ℤ) × (d' : Dentry) × (v' : Vfs A) × (ops.lookup v inode d ≡ some (ret, (d', v')))
        × Answers (tree k s) ret d'
        × AgreeBelow limit v.bytes v'.bytes
        × I v'
  pub no_alloc_inode : ops.alloc_inode ≡ none
  pub read : Vfs A → ℕ → Vfs A
  pub read_inode : ops.read_inode ≡ some read
  pub reads :
      (v : Vfs A) (inode : ℕ) (dir k : Key) (s : List ℕ)
      → I v
      → inode ≢ 0
      → tree dir s ≡ some k
      → (v.inodes inode).i_sb ≡ k.0
      → (v.inodes inode).i_ino ≡ k.1
      → let v' = read v inode in
        Stands mode v' inode k
        × (v'.i_mp inode ≡ v.i_mp inode)
        × AgreeBelow limit v.bytes v'.bytes
        × I v'

pub agree-IsString :
    (limit : ℕ) (m m' : Memory) (p : ℕ) (s : List ℕ)
    → AgreeBelow limit m m'
    → p + length s < limit
    → IsString m p s
    → IsString m' p s
agree-IsString limit m m' p [] same lt is = same p (omega arith) ∙ is
agree-IsString limit m m' p (c ∷ s) same lt is =
    (same p (omega arith) ∙ is.0, is.1, agree-IsString limit m m' (p + 1) s same (omega arith) is.2)
