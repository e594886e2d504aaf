-- ===== src/Initfs/Names.antt =====
-- The directories of fs/initfs/initfs.c: a lookup, and a new entry.
use mathlib.Core.List.{List-discrete}
use native.Mathlib.Decide.{ℕ_discrete}
use mint.Base.{
  ℕ, zero, suc, ◌+◌, ◌-◌, ◌≤◌, ◌<◌, List, [], ◌∷◌, length, Option, none, some, false, ◌&&◌, ◌≡◌,
  ◌≢◌, inl, inr, refl, sym, ap, ◌∙◌, arith, ltb, leb, ◌==◌, ==_refl, ne→==-false, if◌then◌else◌, ℤ,
  pos, negsuc,
}
use mint.Memory.{Memory, memset}
use mint.Memory.Copy.{copied, memset_lem}
use mint.Ring.Chain.{IsChain, IsOutside, IsRing}
use mint.Strings.{strncpy}
use mint.Strings.Chars.{IsString}
use mint.Strings.Compare.{IsChars, compare_chars, strcmp_lem, strcmp_iff}
use mint.Strings.Copy.{AreApart}
use mint.Strings.Bounded.{strncpy_short, copied-IsString}
use mint.Vfs.{Inode, Dentry, dentry_name_max, enoent}
use mint.Initfs.{Initfs, InitfsInode, get_inode, if_same, find_entry, initfs_lookup, answer}

-- A directory without its representation: the names and the numbers of its inodes.
abbrev pub Directory : Type 0
Directory = List (List ℕ × ℕ)

abbrev pub pick : {P : Type 0} → Dec P → ℕ → Option ℕ → Option ℕ
pick (yes p) ino rest = some ino
pick (no ne) ino rest = rest

pub pick_yes : {P : Type 0} (d : Dec P) (ino : ℕ) (rest : Option ℕ) → P → pick d ino rest ≡ some ino
pick_yes (yes p) ino rest q = refl
pick_yes (no ne) ino rest q = absurd (ne q)

pub pick_no : {P : Type 0} (d : Dec P) (ino : ℕ) (rest : Option ℕ) → ¬ P → pick d ino rest ≡ rest
pick_no (yes p) ino rest ne = absurd (ne p)
pick_no (no q) ino rest ne = refl

-- The number that the first entry with a name has.
abbrev pub number : List ℕ → Directory → Option ℕ
number name [] = none
number name ((other, ino) ∷ dir) = pick (List-discrete ℕ_discrete other name) ino (number name dir)

pub number_first :
    (name : List ℕ) (ino : ℕ) (dir : Directory) → number name ((name, ino) ∷ dir) ≡ some ino
number_first name ino dir = pick_yes (List-discrete ℕ_discrete name name) ino (number name dir) refl

-- The elements at the addresses have the names and the numbers.
abbrev pub AreEntries : Initfs → List ℕ → Directory → Type 0
AreEntries fs [] [] = Unit {0}
AreEntries fs [] (e ∷ dir) = ⊥
AreEntries fs (x ∷ xs) [] = ⊥
AreEntries fs (x ∷ xs) ((name, ino) ∷ dir) =
    IsString fs.bytes (fs.d_name x) name
    × IsChars name
    × (length name < dentry_name_max)
    × (fs.d_ino x ≡ ino)
    × AreEntries fs xs dir

-- The entries at `head` are those of a directory.
pub record IsDirectory (fs : Initfs) (head : ℕ) (xs : List ℕ) (dir : Directory) : Type 0 where
  pub ring : IsRing fs.links head xs
  pub entries : AreEntries fs xs dir

-- What `initfs_lookup` returns for a name with a number, or for one without.
abbrev pub found : Inode → Dentry → Option ℕ → ℤ × Dentry
found root entry none = (enoent, entry)
found root entry (some ino) = (pos 0, record entry { d_ino = ino; d_sb = root.i_sb })

pub if_same_no : {A : Type 0} (order : ℤ) (a b : A) → order ≢ pos 0 → if_same order a b ≡ b
if_same_no (pos zero) a b ne = absurd (ne refl)
if_same_no (pos (suc n)) a b ne = refl
if_same_no (negsuc n) a b ne = refl

module _ (chars : ℕ) (fs : Initfs) (head at : ℕ) (name : List ℕ) (long : dentry_name_max ≤ chars)
    (is : IsString fs.bytes at name) (good : IsChars name) where
  walk :
      (fuel a : ℕ) (xs : List ℕ) (dir : Directory) (root : Inode) (entry : Dentry)
      → IsOutside head xs
      → IsChain fs.links a xs head
      → AreEntries fs xs dir
      → length xs < fuel
      → (hit : Option ℕ) × (find_entry fuel chars fs head at (fs.links.next a) ≡ some hit)
        × (answer fs root entry hit ≡ found root entry (number name dir))
  unfolding find_entry
  walk zero a xs dir root entry o ch es lt = absurd (omega arith)
  walk (suc fuel) a [] [] root entry o ch es lt = (none, rw (ch.0, ==_refl head) refl, refl)
  walk (suc fuel) a [] (e ∷ dir) root entry o ch es lt = absurd es
  walk (suc fuel) a (x ∷ xs) [] root entry o ch es lt = absurd es
  walk (suc fuel) a (x ∷ xs) ((other, ino) ∷ dir) root entry o ch (is', good', short, e, es) lt =
      let away = ne→==-false x head (λ e. o.0 (sym e)) in
      let same =
        strcmp_iff chars fs.bytes (fs.d_name x) at other name is' is good' good
          (omega (arith, short, long)) in
      let next = walk fuel x xs dir root entry o.1 ch.2 es (omega arith) in
      elim (List-discrete ℕ_discrete other name) [
        | yes eq ↦ (
          some x,
          rw (ch.0, away, same.1 eq) refl,
          ap (λ (i : ℕ). found root entry (some i)) e
              ∙ ap (found root entry)
                  (sym (pick_yes (List-discrete ℕ_discrete other name) ino (number name dir) eq)),
        )
        | no ne ↦ (
          next.0,
          rw
              (
                ch.0,
                away,
                strcmp_lem chars fs.bytes (fs.d_name x) at other name is' is
                    (omega (arith, short, long)),
              )
              (if_same_no (compare_chars other name) (some (some x))
                  (find_entry fuel chars fs head at (fs.links.next x))
                  (λ z. ne (
                    same.0 (
                      strcmp_lem chars fs.bytes (fs.d_name x) at other name is' is
                        (omega (arith, short, long))
                      ∙ ap some z)))
                ∙ next.1),
          next.2
              ∙ ap (found root entry)
                  (sym (pick_no (List-discrete ℕ_discrete other name) ino (number name dir) ne)),
        )
      ]

-- In an inode that has the entries of a directory, a lookup of a name stops and finds what the
-- directory has for it: the number of the first entry with that name, or none.
pub initfs_lookup-number :
    (fuel chars : ℕ) (fs : Initfs) (root : Inode) (entry : Dentry) (rnode : InitfsInode)
    (xs : List ℕ) (dir : Directory) (name : List ℕ)
    → get_inode fs root.i_ino ≡ some (some rnode)
    → IsDirectory fs rnode.i_entries xs dir
    → IsString fs.bytes entry.d_name name
    → IsChars name
    → dentry_name_max ≤ chars
    → length xs < fuel
    → initfs_lookup fuel chars (some fs) root entry ≡ some (found root entry (number name dir))
unfolding initfs_lookup
initfs_lookup-number fuel chars fs root entry rnode xs dir name node d is good long enough =
    let (hit, e, same) =
      walk chars fs rnode.i_entries entry.d_name name long is good fuel rnode.i_entries xs dir root
        entry d.ring.outside d.ring.chain d.entries enough in
    rw (node, e) (ap some same)

-- A string outside a range of memory stays if the rest of memory does.
pub frame-IsString :
    (m m' : Memory) (p at n : ℕ) (s : List ℕ)
    → ((x : ℕ) → (leb at x && ltb x (at + n)) ≡ false → m' x ≡ m x)
    → AreApart at n p s
    → IsString m p s
    → IsString m' p s
frame-IsString m m' p at n [] same (inl h) is = same p (ground arith) ∙ is
frame-IsString m m' p at n [] same (inr h) is = same p (ground arith) ∙ is
frame-IsString m m' p at n (c ∷ s) same (inl h) is = (
  same p (ground arith) ∙ is.0,
  is.1,
  frame-IsString m m' (p + 1) at n s same (inl (omega arith)) is.2,
)
frame-IsString m m' p at n (c ∷ s) same (inr h) is = (
  same p (ground arith) ∙ is.0,
  is.1,
  frame-IsString m m' (p + 1) at n s same (inr (omega arith)) is.2,
)

-- The bytes after a call of `initfs_create`: a zeroed block, and the name in it.
abbrev pub named_bytes : Memory → ℕ → ℕ → Memory
named_bytes m at src = (strncpy (memset m at 0 dentry_name_max) at src dentry_name_max).1

module _ (m : Memory) (at src : ℕ) (s : List ℕ) (short : length s < dentry_name_max)
    (apart : AreApart at dentry_name_max src s) (is : IsString m src s) where
  zeroed-IsString : IsString (memset m at 0 dentry_name_max) src s
  zeroed-IsString =
      frame-IsString m (memset m at 0 dentry_name_max) src at dentry_name_max s
        (λ x out. memset_lem m at 0 dentry_name_max x ∙ rw out refl) apart is

  less-AreApart : AreApart at (length s) src s
  less-AreApart = elim apart [ inl h ↦ inl (omega (arith, short)) | inr h ↦ inr h ]

  bytes_are :
      (x : ℕ)
      → named_bytes m at src x ≡ (
          if x == at + length s && ltb (length s + 1) dentry_name_max
          then 0
          else copied (memset m at 0 dentry_name_max) at src (length s) x)
  bytes_are =
      (strncpy_short (memset m at 0 dentry_name_max) at src dentry_name_max s zeroed-IsString short
        less-AreApart).1

  -- Nothing outside the block changes.
  pub named_outside :
      (x : ℕ) → (leb at x && ltb x (at + dentry_name_max)) ≡ false → named_bytes m at src x ≡ m x
  named_outside x out =
      let zero_out : memset m at 0 dentry_name_max x ≡ m x =
        memset_lem m at 0 dentry_name_max x ∙ rw out refl in
      bytes_are x ∙ ground (arith, short, out, zero_out)

  -- The block has the name.
  pub named-IsString : IsString (named_bytes m at src) at s
  named-IsString =
      copied-IsString (memset m at 0 dentry_name_max) (named_bytes m at src) at src s
        zeroed-IsString
        (λ j lt.
          let back : at + j - at ≡ j = omega arith in
          bytes_are (at + j)
          ∙ ground (arith, short, ap (λ (i : ℕ). memset m at 0 dentry_name_max (src + i)) back))
        (bytes_are (at + length s)
          ∙ ground (arith, short, memset_lem m at 0 dentry_name_max (at + length s)))
