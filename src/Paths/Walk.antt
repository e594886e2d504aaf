-- ===== src/Paths/Walk.antt =====
-- The walk of fs/path.c along the names of a path and the inode at its end, against a walk in a tree.
use mathlib.Core.Option.{none-ne-some}
use mint.Base.{
  Option-cases, ℕ, zero, suc, ◌+◌, ◌≤◌, ◌<◌, List, [], ◌∷◌, length, Option, none, some, ◌≡◌, ◌≢◌,
  ◌⊎◌, inl, inr, refl, ◌∙◌, arith, ne→==-false,
}
use mint.Memory.{Memory}
use mint.Strings.{strtok_r}
use mint.Strings.Chars.{IsString}
use mint.Strings.Tokens.{strtok_r_done}
use mint.Vfs.{Dentry}
use mint.Paths.{
  slash_char, Vfs, Operations, Resolved, path_resolve_existing, dentry_lookup, inode_resolve_dentry,
  path_resolve_mountpoint, walk_path, path_resolve_dentry,
}
use mint.Paths.Tree.{Key, Tree, follow, AgreeBelow, HasKey, Stands, Serves, agree-IsString}
use mint.Paths.Step.{dentry_lookup_lem, inode_resolve_dentry_lem}
use mint.Paths.Names.{join, AreNames, length-join, length-names, first_name-IsCut}

-- The dentry at the end of a walk: the one at the start for no names, and else none if the tree has
-- nothing there, and one with the key if it has.
abbrev pub Outcome : Option Dentry → List (List ℕ) → Option Key → Option Dentry → Type 0
Outcome start [] target d = d ≡ start
Outcome start (name ∷ names) none d = d ≡ none
Outcome start (name ∷ names) (some last) d = (e : Dentry) × (d ≡ some e) × HasKey e last

later :
    (start : Option Dentry) (d : Dentry) (name other : List ℕ) (names : List (List ℕ))
    (target : Option Key) (r : Option Dentry)
    → Outcome (some d) (other ∷ names) target r
    → Outcome start (name ∷ other ∷ names) target r
later start d name other names none r h = h
later start d name other names (some last) r h = h

one_more :
    (tree : Tree) (cover : Key → Key) (start : Option Dentry) (d : Dentry) (next here : Key)
    (name : List ℕ) (names : List (List ℕ)) (r : Option Dentry)
    → HasKey d next
    → Outcome (some d) names (follow tree cover next here names) r
    → Outcome start (name ∷ names) (follow tree cover next here names) r
one_more tree cover start d next here name [] r s h = (d, h, s)
one_more tree cover start d next here name (other ∷ names) r s h =
    later start d name other names (follow tree cover next here (other ∷ names)) r h

-- An inode with the key and its mode, and a dentry with the key, if there is one, and else `NULL`.
abbrev pub Opens : {A : Type 0} → (Key → Option ℕ) → Option Key → Resolved A → Type 0
Opens mode none (inode, (found, v)) = (inode ≡ 0) × (found ≡ none)
Opens mode (some k) (inode, (found, v)) =
    Stands mode v inode k × ((d : Dentry) × (found ≡ some d) × HasKey d k)

-- The slash is not in the path.
abbrev pub IsAside : ℕ → ℕ → List ℕ → Type 0
IsAside slash str path = (slash + 1 < str) ⊎ (str + length path < slash)

module _ {A : Type 0} (ops : Operations A) (chars slash empty limit : ℕ) (I : Vfs A → Type 0)
    (tree : Tree) (cover : Key → Key) (mode : Key → Option ℕ)
    (serves : Serves ops limit I tree cover mode) (low : slash + 1 < limit) where
  outside_slash :
      (m m' : Memory) (str : ℕ) (path : List ℕ)
      → IsAside slash str path
      → ((x : ℕ) → (x < str) ⊎ (str + length path ≤ x) → m' x ≡ m x)
      → IsString m slash (slash_char ∷ [])
      → IsString m' slash (slash_char ∷ [])
  outside_slash m m' str path (inl h) same is =
      (same slash (inl (omega arith)) ∙ is.0, is.1, same (slash + 1) (inl h) ∙ is.2)
  outside_slash m m' str path (inr h) same is =
      (same slash (inr (omega arith)) ∙ is.0, is.1, same (slash + 1) (inr (omega arith)) ∙ is.2)

  -- One round of the loop.
  one_round :
      (fuel : ℕ) (v v₂ v₃ : Vfs A) (inode str lasts resolved next : ℕ) (m : Memory)
      (start found : Option Dentry) (d : Dentry)
      → inode ≢ 0
      → strtok_r chars v.bytes empty (some str) slash 0
        ≡ some (record { token = some str; lasts = lasts; memory = m })
      → dentry_lookup ops (record v { bytes = m }) inode str ≡ some (found, v₂)
      → found ≡ some d
      → inode_resolve_dentry ops v₂ d ≡ (resolved, v₃)
      → path_resolve_mountpoint v₃ resolved ≡ some next
      → walk_path ops chars slash empty (suc fuel) v inode str start
        ≡ walk_path ops chars slash empty fuel v₃ next lasts (some d)
  unfolding walk_path
  one_round fuel v v₂ v₃ inode str lasts resolved next m start found d ne cut e is e' mounted =
      rw (ne→==-false inode 0 ne, cut, e, is, e', mounted) refl

  last_round :
      (fuel : ℕ) (v v₂ : Vfs A) (inode str lasts : ℕ) (m : Memory) (start found : Option Dentry)
      → inode ≢ 0
      → strtok_r chars v.bytes empty (some str) slash 0
        ≡ some (record { token = some str; lasts = lasts; memory = m })
      → dentry_lookup ops (record v { bytes = m }) inode str ≡ some (found, v₂)
      → found ≡ none
      → walk_path ops chars slash empty (suc fuel) v inode str start ≡ some (none, v₂)
  unfolding walk_path
  last_round fuel v v₂ inode str lasts m start found ne cut e is =
      rw (ne→==-false inode 0 ne, cut, e, is) refl

  walk_path-follow :
      (fuel : ℕ) (v : Vfs A) (inode str : ℕ) (last here : Key) (names : List (List ℕ))
      (start : Option Dentry)
      → I v
      → Stands mode v inode here
      → 0 < str
      → AreNames names
      → IsString v.bytes slash (slash_char ∷ [])
      → IsAside slash str (join names)
      → IsString v.bytes str (join names)
      → str + length (join names) < limit
      → length (join names) + 1 < chars
      → length names < fuel
      → (d : Option Dentry) × (v' : Vfs A) × (walk_path ops chars slash empty fuel v inode str start
          ≡ some (d, v'))
        × Outcome start names (follow tree cover last here names) d
        × I v'
  unfolding walk_path strtok_r
  walk_path-follow zero v inode str last here names start i at p oks sl aside is lim lt more =
      absurd (omega arith)
  walk_path-follow (suc fuel) v inode str last here [] start i at p oks sl aside is lim lt more =
      let e = strtok_r_done chars v.bytes empty str slash (slash_char ∷ []) [] sl is tt tt lt in
      (start, v, rw (ne→==-false inode 0 at.0, e) refl, refl, i)
  walk_path-follow (suc fuel) v inode str last here (name ∷ names) start i at p (ok, oks) sl aside
        is lim lt more =
      let (lasts, m, cut) =
        first_name-IsCut chars empty slash v.bytes str name names sl is ok oks lt in
      let v₁ = record v { bytes = m } in
      let i₁ = serves.below v m (λ x le. cut.outside x (inr (omega arith))) i in
      let short : str + length name < limit = omega (arith, lim, length-join name names) in
      let (r, v₂, e, looked, same₂, i₂) =
        dentry_lookup_lem ops limit I tree cover mode serves (omega arith) v₁ inode str here name i₁
          at p cut.first ok short in
      elim (Option-cases (tree here name)) [
        | inl z ↦
            let l = rw z at looked in
            (
              none,
              v₂,
              last_round fuel v v₂ inode str lasts m start r at.0 cut.returns e l,
              rw z refl,
              i₂,
            )
        | inr (next, z) ↦
            let (d, found, key) = rw z at looked in
            let (resolved, v₃, e₃, stands, (mounted_at, mounted, covered), same₃, i₃) =
              inode_resolve_dentry_lem ops limit I tree cover mode serves (omega arith) v₂ d here
                next name i₂ key z in
            let same : AgreeBelow limit m v₃.bytes = λ x lt. same₃ x lt ∙ same₂ x lt in
            let sl₃ =
              agree-IsString limit m v₃.bytes slash (slash_char ∷ []) same low
                (outside_slash v.bytes m str (join (name ∷ names)) aside cut.outside sl) in
            let (d', v', e', out, i') =
              walk_path-follow fuel v₃ mounted_at lasts next (cover next) names (some d) i₃ covered
                (omega (arith, p, cut.start)) oks sl₃
                (elim aside [
                  | inl h ↦ inl (omega (arith, h, cut.start))
                  | inr h ↦ inr (omega (arith, h, cut.end))
                ])
                (agree-IsString limit m v₃.bytes lasts (join names) same (omega (arith, cut.end))
                  cut.rest)
                (omega (arith, cut.end)) (omega (arith, cut.end, cut.start)) (omega arith) in
            (
              d',
              v',
              one_round fuel v v₂ v₃ inode str lasts resolved mounted_at m start r d at.0
                    cut.returns e found e₃ mounted
                  ∙ e',
              rw z (one_more tree cover start d next (cover next) name names d' key out),
              i',
            )
      ]

  -- The last entry is one of some directory, if the one before is.
  entry_of :
      (last here k dir : Key) (s : List ℕ) (names : List (List ℕ))
      → tree dir s ≡ some last
      → follow tree cover last here names ≡ some k
      → (dir' : Key) × (s' : List ℕ) × (tree dir' s' ≡ some k)
  entry_of last here k dir s [] from e = (dir, s, from ∙ e)
  entry_of last here k dir s (name ∷ names) from e = elim (Option-cases (tree here name)) [
    | inl z ↦ absurd (none-ne-some k (rw z at e))
    | inr (next, z) ↦ entry_of next (cover next) k here name names z (rw z at e)
  ]

  follow-tree :
      (last here k : Key) (name : List ℕ) (names : List (List ℕ))
      → follow tree cover last here (name ∷ names) ≡ some k
      → (dir : Key) × (s : List ℕ) × (tree dir s ≡ some k)
  follow-tree last here k name names e = elim (Option-cases (tree here name)) [
    | inl z ↦ absurd (none-ne-some k (rw z at e))
    | inr (next, z) ↦ entry_of next (cover next) k here name names z (rw z at e)
  ]

  -- If the functions of the file systems do what a tree of names says, `kmalloc` has space, the cache has
  -- inodes under their keys, and inodes are allocated by `kmalloc` and filled by `read_inode`, then `__path_resolve` on at
  -- least one name, with a slash between each two, stops. It returns `NULL` if the tree does not lead on at one of
  -- the names, and otherwise an inode with the super block, the number and the mode of the last entry, with
  -- its dentry. After each name, the walk goes on from what is mounted on the entry. The path is below
  -- the limit and apart from the literal "/".
  pub path_resolve_existing-follow :
      (v : Vfs A) (inode path : ℕ) (here : Key) (name : List ℕ) (names : List (List ℕ))
      → I v
      → Stands mode v inode here
      → 0 < path
      → AreNames (name ∷ names)
      → IsString v.bytes slash (slash_char ∷ [])
      → IsAside slash path (join (name ∷ names))
      → IsString v.bytes path (join (name ∷ names))
      → path + length (join (name ∷ names)) < limit
      → length (join (name ∷ names)) + 1 < chars
      → (r : Resolved A) × (path_resolve_existing ops chars slash empty v inode path ≡ some r)
        × Opens mode (follow tree cover here here (name ∷ names)) r
  unfolding path_resolve_existing path_resolve_dentry
  path_resolve_existing-follow v inode path here name names i at p oks sl aside is lim lt =
      let (d, v', e, out, i') =
        walk_path-follow chars v inode path here here (name ∷ names) none i at p oks sl aside is lim
          lt (omega (arith, length-names (name ∷ names) oks)) in
      elim (Option-cases (follow tree cover here here (name ∷ names))) [
        | inl z ↦
            let nothing = rw z at out in
            (
              (0, (none, v')),
              rw (ne→==-false inode 0 at.0, ne→==-false path 0 (omega arith), e, nothing) refl,
              rw z (refl, refl),
            )
        | inr (k, z) ↦
            let (entry, found, key) = rw z at out in
            let (dir, s, leads) = follow-tree here here k name names z in
            let (resolved, v'', e', stands, covered, same, i'') =
              inode_resolve_dentry_lem ops limit I tree cover mode serves (omega arith) v' entry dir
                k s i' key leads in
            (
              (resolved, (some entry, v'')),
              rw (ne→==-false inode 0 at.0, ne→==-false path 0 (omega arith), e, found, e') refl,
              rw z (stands, (entry, refl, key)),
            )
      ]
