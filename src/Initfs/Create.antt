-- ===== src/Initfs/Create.antt =====
-- A new file in a directory of fs/initfs/initfs.c.
use mint.Base.{
  ℕ, ◌+◌, ◌≤◌, ◌<◌, List, [], ◌∷◌, length, Option, some, ◌&&◌, false, ◌≡◌, ◌≢◌, refl, sym, ap, ◌∙◌,
  arith, ltb, leb, ◌==◌, ==_refl, ne→==-false, lt→ltb, if◌then◌else◌, pos,
}
use mint.Math.{u64}
use mint.Ring.{Links, list_runtime_init, list_add, set_next}
use mint.Ring.Chain.{IsOutside, IsRing, IsChain-set_next, IsChain-set_prev}
use mint.Ring.Add.{list_runtime_init-IsRing, list_add-IsRing}
use mint.Strings.Chars.{IsString}
use mint.Strings.Compare.{IsChars}
use mint.Strings.Copy.{AreApart}
use mint.Vfs.{Inode, Dentry, dentry_name_max, s_ifdir}
use mint.Initfs.{
  Initfs, InitfsInode, get_inode, max_inodes, initfs_lookup, initfs_create, initfs_mount,
}
use mint.Initfs.Names.{
  Directory, number_first, AreEntries, IsDirectory, found, initfs_lookup-number, frame-IsString,
  named_bytes, named_outside, named-IsString,
}

-- A block of 256 bytes at `at` touches none of the names of the entries.
abbrev pub AreAway : Initfs → ℕ → List ℕ → Directory → Type 0
AreAway fs at [] dir = Unit {0}
AreAway fs at (x ∷ xs) [] = Unit {0}
AreAway fs at (x ∷ xs) ((name, ino) ∷ dir) =
    AreApart at dentry_name_max (fs.d_name x) name × AreAway fs at xs dir

-- The blocks of a new file are not in use: its list of entries, its element in the directory at `head`
-- and its name there.
pub record IsFresh (fs : Initfs) (head : ℕ) (xs : List ℕ) (dir : Directory) (entries element at : ℕ)
    : Type 0 where
  pub entries_ne_head : entries ≢ head
  pub entries_outside : IsOutside entries xs
  pub element_ne_head : element ≢ head
  pub element_outside : IsOutside element xs
  pub element_ne_entries : element ≢ entries
  pub away : AreAway fs at xs dir

-- A list stays when another one is set up.
init-IsRing :
    (links : Links) (list head : ℕ) (xs : List ℕ)
    → list ≢ head
    → IsOutside list xs
    → IsRing links head xs
    → IsRing (list_runtime_init links list) head xs
unfolding list_runtime_init
init-IsRing links list head xs ne o r = record {
  chain =
      IsChain-set_prev (set_next links list list) list list head head xs ne o
        (IsChain-set_next links list list head head xs ne o r.chain);
  outside = r.outside;
  distinct = r.distinct;
}

-- The new list is empty, and stays so when an element is put in the other one.
init-empty :
    (links : Links) (list head element : ℕ) (xs : List ℕ)
    → list ≢ head
    → IsOutside list xs
    → element ≢ list
    → IsRing links head xs
    → IsRing (list_add (list_runtime_init links list) head element) list []
unfolding list_runtime_init list_add
init-empty links list head element [] ne o away r = record {
  chain = (ground (arith, r.chain), ground (arith, r.chain));
  outside = tt;
  distinct = tt;
}
init-empty links list head element (x ∷ xs) ne o away r = record {
  chain = (ground (arith, r.chain.0, o.0), ground (arith, r.chain.0, o.0));
  outside = tt;
  distinct = tt;
}

-- The new entry comes before the others, which keep their names and numbers.
entries_kept :
    (fs fs' : Initfs) (element at : ℕ) (xs : List ℕ) (dir : Directory)
    → ((x : ℕ) → (leb at x && ltb x (at + dentry_name_max)) ≡ false → fs'.bytes x ≡ fs.bytes x)
    → ((x : ℕ) → element ≢ x → (fs'.d_name x ≡ fs.d_name x) × (fs'.d_ino x ≡ fs.d_ino x))
    → IsOutside element xs
    → AreAway fs at xs dir
    → AreEntries fs xs dir
    → AreEntries fs' xs dir
entries_kept fs fs' element at [] [] bytes same o away es = tt
entries_kept fs fs' element at [] (e ∷ dir) bytes same o away es = es
entries_kept fs fs' element at (x ∷ xs) [] bytes same o away es = es
entries_kept fs fs' element at (x ∷ xs) ((name, ino) ∷ dir) bytes same o away
      (is, good, short, e, es) =
    (
      rw (same x o.0).0
          (frame-IsString fs.bytes fs'.bytes (fs.d_name x) at dentry_name_max name bytes away.0 is),
      good,
      short,
      (same x o.0).1 ∙ e,
      entries_kept fs fs' element at xs dir bytes same o.1 away.1 es,
    )

-- In a directory with room for one more inode in the file system, and with blocks that are not in use,
-- `initfs_create` succeeds: the new inode has the next number and the mode, the name and its number come first
-- in the directory and the other entries stay, and the new inode is in its place with an empty list of
-- entries. The name is shorter than 256 characters.
pub initfs_create-IsDirectory :
    (fs : Initfs) (parent : Inode) (dentry : Dentry) (mode entries element at : ℕ)
    (iparent : InitfsInode) (xs : List ℕ) (dir : Directory) (name : List ℕ)
    → get_inode fs parent.i_ino ≡ some (some iparent)
    → parent.i_ino ≢ fs.next
    → fs.next < max_inodes
    → IsDirectory fs iparent.i_entries xs dir
    → IsFresh fs iparent.i_entries xs dir entries element at
    → IsString fs.bytes dentry.d_name name
    → IsChars name
    → length name < dentry_name_max
    → AreApart at dentry_name_max dentry.d_name name
    → (fs' : Initfs) × (rnode : InitfsInode) × (initfs_create fs parent dentry mode entries element
          at
        ≡ some (
          pos 0,
          (
            fs',
            record dentry { d_ino = fs.next },
            record {
              i_ino = fs.next;
              i_mode = mode;
              i_uid = 0;
              i_gid = 0;
              i_size = 0;
              i_sb = parent.i_sb;
            },
          ),
        ))
      × IsDirectory fs' iparent.i_entries (element ∷ xs) ((name, fs.next) ∷ dir)
      × (get_inode fs' parent.i_ino ≡ some (some iparent))
      × (get_inode fs' fs.next ≡ some (some rnode))
      × (rnode.i_mode ≡ mode)
      × (fs'.next ≡ fs.next + 1)
      × IsDirectory fs' rnode.i_entries [] []
      × IsString fs'.bytes dentry.d_name name
unfolding initfs_create
initfs_create-IsDirectory fs parent dentry mode entries element at iparent xs dir name node other
      room d fresh is good short apart =
    let rnode : InitfsInode = record {
      i_mode = mode;
      i_ino = fs.next;
      i_uid = 0;
      i_gid = 0;
      i_size = 0;
      i_nlink = 0;
      i_data = 0;
      i_entries = entries;
    } in
    let fs' : Initfs = record {
      inodes = λ i. if fs.next == i then some rnode else fs.inodes i;
      next = u64 (fs.next + 1);
      links = list_add (list_runtime_init fs.links entries) iparent.i_entries element;
      d_name = λ x. if element == x then at else fs.d_name x;
      d_ino = λ x. if element == x then fs.next else fs.d_ino x;
      bytes = named_bytes fs.bytes at dentry.d_name;
    } in
    let outside = named_outside fs.bytes at dentry.d_name name short apart is in
    (
      fs',
      rnode,
      rw (node, lt→ltb fs.next max_inodes room) refl,
      record {
        ring =
            list_add-IsRing (list_runtime_init fs.links entries) iparent.i_entries element xs
              fresh.element_ne_head fresh.element_outside
              (init-IsRing fs.links entries iparent.i_entries xs fresh.entries_ne_head
                fresh.entries_outside d.ring);
        entries = (
          rw (==_refl element) (named-IsString fs.bytes at dentry.d_name name short apart is),
          good,
          short,
          rw (==_refl element) refl,
          entries_kept fs fs' element at xs dir outside
              (λ x ne. (rw (ne→==-false element x ne) refl, rw (ne→==-false element x ne) refl))
              fresh.element_outside fresh.away d.entries,
        );
      },
      rw (ne→==-false fs.next parent.i_ino (λ e. other (sym e))) node,
      rw (lt→ltb fs.next max_inodes room, ==_refl fs.next) refl,
      refl,
      omega (arith, room),
      record {
        ring =
            init-empty fs.links entries iparent.i_entries element xs fresh.entries_ne_head
              fresh.entries_outside fresh.element_ne_entries d.ring;
        entries = tt;
      },
      frame-IsString fs.bytes fs'.bytes dentry.d_name at dentry_name_max name outside apart is,
    )

-- After a file has been created under the conditions of `initfs_create-IsDirectory`, a lookup of its
-- name in the same directory stops and finds the number that it was given, whatever was in the directory before.
pub initfs_lookup-initfs_create :
    (fuel chars : ℕ) (fs : Initfs) (parent : Inode) (dentry : Dentry) (mode entries element at : ℕ)
    (iparent : InitfsInode) (xs : List ℕ) (dir : Directory) (name : List ℕ)
    → get_inode fs parent.i_ino ≡ some (some iparent)
    → parent.i_ino ≢ fs.next
    → fs.next < max_inodes
    → IsDirectory fs iparent.i_entries xs dir
    → IsFresh fs iparent.i_entries xs dir entries element at
    → IsString fs.bytes dentry.d_name name
    → IsChars name
    → length name < dentry_name_max
    → AreApart at dentry_name_max dentry.d_name name
    → dentry_name_max ≤ chars
    → length xs + 1 < fuel
    → (fs' : Initfs) × (dentry' : Dentry) × (inode : Inode) × (initfs_create fs parent dentry mode
          entries element at
        ≡ some (pos 0, (fs', dentry', inode)))
      × (initfs_lookup fuel chars (some fs') parent dentry
          ≡ some (pos 0, record dentry { d_ino = inode.i_ino; d_sb = parent.i_sb }))
initfs_lookup-initfs_create fuel chars fs parent dentry mode entries element at iparent xs dir name
      node other room d fresh is good short apart long enough =
    let (fs', rnode, created, d', parent', node', m, n, empty, is') =
      initfs_create-IsDirectory fs parent dentry mode entries element at iparent xs dir name node
        other room d fresh is good short apart in
    (
      fs',
      record dentry { d_ino = fs.next },
      record {
        i_ino = fs.next;
        i_mode = mode;
        i_uid = 0;
        i_gid = 0;
        i_size = 0;
        i_sb = parent.i_sb;
      },
      created,
      initfs_lookup-number fuel chars fs' parent dentry iparent (element ∷ xs)
            ((name, fs.next) ∷ dir) name parent' d' is' good long (omega arith)
          ∙ ap (λ n. some (found parent dentry n)) (number_first name fs.next dir),
    )

-- A mounted file system has an empty root directory in the inode 0.
pub initfs_mount-IsDirectory :
    (old : ℕ → Option InitfsInode) (fs : Initfs) (sb entries : ℕ)
    → let (root, fs') = initfs_mount old fs sb entries in
      (rnode : InitfsInode) × (get_inode fs' root.i_ino ≡ some (some rnode))
      × (rnode.i_entries ≡ entries)
      × IsDirectory fs' rnode.i_entries [] []
      × (root.i_ino < fs'.next)
unfolding initfs_mount
initfs_mount-IsDirectory old fs sb entries = (
  record {
    i_mode = s_ifdir;
    i_ino = 0;
    i_uid = 0;
    i_gid = 0;
    i_size = 0;
    i_nlink = 0;
    i_data = 0;
    i_entries = entries;
  },
  refl,
  refl,
  record { ring = list_runtime_init-IsRing fs.links entries; entries = tt },
  omega arith,
)
