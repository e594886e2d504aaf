-- ===== src/Filesystems/Lookup.antt =====
-- Which file system `filesystem_get` of fs/fs.c finds.
use mathlib.Core.List.{List-discrete}
use native.Mathlib.Decide.{ℕ_discrete}
use mint.Base.{
  ℕ, zero, suc, ◌+◌, ◌<◌, List, [], ◌∷◌, length, Option, none, some, ◌≡◌, ◌≢◌, refl, sym, ap, ◌∙◌,
  arith, ==_refl, ne→==-false,
}
use mint.Ring.Chain.{IsChain, IsOutside, IsRing}
use mint.Ring.Add.{list_add-IsRing}
use mint.Strings.Chars.{IsString}
use mint.Strings.Compare.{IsChars, compare_chars, strcmp_lem, strcmp_iff}
use mint.Initfs.Names.{if_same_no, pick, pick_yes, pick_no}
use mint.Filesystems.{Filesystems, filesystem_register, find_filesystem, filesystem_get}

-- The file systems with their names, in the order of the list.
abbrev pub Registered : Type 0
Registered = List (ℕ × List ℕ)

abbrev pub addresses : Registered → List ℕ
addresses [] = []
addresses ((fs, name) ∷ rest) = fs ∷ addresses rest

-- The first file system with a name.
abbrev pub named : List ℕ → Registered → Option ℕ
named name [] = none
named name ((fs, other) ∷ rest) = pick (List-discrete ℕ_discrete other name) fs (named name rest)

abbrev pub HaveNames : ℕ → Filesystems → Registered → Type 0
HaveNames chars s [] = Unit {0}
HaveNames chars s ((fs, name) ∷ rest) =
    IsString s.bytes (s.name fs) name
    × IsChars name
    × (length name < chars)
    × HaveNames chars s rest

module _ (chars : ℕ) (s : Filesystems) (at : ℕ) (name : List ℕ) (is : IsString s.bytes at name)
    (good : IsChars name) where
  search :
      (fuel a : ℕ) (all : Registered)
      → IsOutside s.fs_list (addresses all)
      → IsChain s.links a (addresses all) s.fs_list
      → HaveNames chars s all
      → length (addresses all) < fuel
      → find_filesystem fuel chars s at (s.links.next a) ≡ some (named name all)
  unfolding find_filesystem
  search zero a all o ch h lt = absurd (omega arith)
  search (suc fuel) a [] o ch h lt = rw (ch.0, ==_refl s.fs_list) refl
  search (suc fuel) a ((x, other) ∷ rest) o ch (is', good', short, h) lt =
      let away = ne→==-false x s.fs_list (λ e. o.0 (sym e)) in
      let order = strcmp_lem chars s.bytes (s.name x) at other name is' is short in
      let same = strcmp_iff chars s.bytes (s.name x) at other name is' is good' good short in
      let later = search fuel x rest o.1 ch.2 h (omega arith) in
      let d = List-discrete ℕ_discrete other name in
      elim (List-discrete ℕ_discrete other name) [
        | yes eq ↦ rw (ch.0, away, same.1 eq) (ap some (sym (pick_yes d x (named name rest) eq)))
        | no ne ↦
            rw (ch.0, away, order)
              (if_same_no (compare_chars other name) (some (some x))
                  (find_filesystem fuel chars s at (s.links.next x))
                  (λ z. ne (same.0 (order ∙ ap some z)))
                ∙ later
                ∙ ap some (sym (pick_no d x (named name rest) ne)))
      ]

-- The names do not depend on the list.
register-HaveNames :
    (chars : ℕ) (s : Filesystems) (fs : ℕ) (all : Registered)
    → HaveNames chars s all
    → HaveNames chars (filesystem_register s fs).1 all
unfolding filesystem_register
register-HaveNames chars s fs [] h = tt
register-HaveNames chars s fs ((x, other) ∷ rest) (is, good, short, h) =
    (is, good, short, register-HaveNames chars s fs rest h)

-- On the registered file systems, `filesystem_get` stops, and finds the first one with the name, or `NULL`. After
-- another one has been registered, it is looked at before them.
pub filesystem_get-filesystem_register :
    (fuel chars : ℕ) (s : Filesystems) (fs at : ℕ) (other name : List ℕ) (all : Registered)
    → IsRing s.links s.fs_list (addresses all)
    → HaveNames chars s ((fs, other) ∷ all)
    → fs ≢ s.fs_list
    → IsOutside fs (addresses all)
    → IsString s.bytes at name
    → IsChars name
    → length (addresses all) + 1 < fuel
    → (filesystem_get fuel chars s at ≡ some (named name all))
      × (filesystem_get fuel chars (filesystem_register s fs).1 at
          ≡ some (named name ((fs, other) ∷ all)))
unfolding filesystem_get filesystem_register
filesystem_get-filesystem_register fuel chars s fs at other name all ring names ne o is good lt =
    let s' = (filesystem_register s fs).1 in
    let ring' = list_add-IsRing s.links s.fs_list fs (addresses all) ne o ring in
    (
      search chars s at name is good fuel s.fs_list all ring.outside ring.chain names.3
          (omega (arith, lt)),
      search chars s' at name is good fuel s.fs_list ((fs, other) ∷ all) ring'.outside ring'.chain
          (register-HaveNames chars s fs ((fs, other) ∷ all) names) (omega (arith, lt)),
    )
