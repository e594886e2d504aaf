-- ===== src/Paths/Step.antt =====
-- One step of the walk of fs/path.c: `dentry_lookup` of fs/dentry.c and `inode_resolve_dentry` of fs/inode.c.
use native.Mathlib.Decide.{ℕ_discrete}
use mint.Base.{
  ℕ, ◌+◌, ◌<◌, List, [], ◌∷◌, length, get_or, Option, none, some, ◌≡◌, ◌≢◌, inr, refl, sym, ap, ◌∙◌,
  arith, ◌==◌, ==_refl, ne→==-false, if◌then◌else◌, ℤ,
}
use mint.Strings.Chars.{IsString}
use mint.Vfs.{Inode, Dentry, dentry_name_max}
use mint.Initfs.Names.{named_bytes, named_outside, named-IsString}
use mint.Paths.{
  Vfs, Operations, no_inode, store_inode, unless_negative, dentry_allocate, dentry_lookup,
  inode_allocate, inode_resolve_dentry, path_resolve_mountpoint,
}
use mint.Paths.Names.{IsName}
use mint.Paths.Tree.{Key, Tree, AgreeBelow, HasKey, Answers, Stands, Serves, agree-IsString}

-- What a lookup of one name leaves.
abbrev pub Looked : Option Key → Option Dentry → Type 0
Looked none r = r ≡ none
Looked (some k) r = (d : Dentry) × (r ≡ some d) × HasKey d k

unless_negative-Looked :
    {A : Type 0} (target : Option Key) (ret : ℤ) (d : Dentry) (v : Vfs A)
    → Answers target ret d
    → (r : Option Dentry) × (unless_negative ret (d, v) ≡ (r, v)) × Looked target r
unless_negative-Looked none ret d v (n, e) = (none, rw e refl, refl)
unless_negative-Looked (some k) ret d v ((n, e), key) = (some d, rw e refl, (d, refl, key))

short-IsName : (s : List ℕ) → IsName s → length s < dentry_name_max
short-IsName [] ok = absurd ok
short-IsName (c ∷ s) ok = ok.2

module _ {A : Type 0} (ops : Operations A) (limit : ℕ) (I : Vfs A → Type 0) (tree : Tree)
    (cover : Key → Key) (mode : Key → Option ℕ) (serves : Serves ops limit I tree cover mode)
    (some_limit : 0 < limit) where
  -- The dentry of the entry with the name, or `NULL`.
  pub dentry_lookup_lem :
      (v : Vfs A) (inode name : ℕ) (k : Key) (s : List ℕ)
      → I v
      → Stands mode v inode k
      → 0 < name
      → IsString v.bytes name s
      → IsName s
      → name + length s < limit
      → (r : Option Dentry) × (v' : Vfs A) × (dentry_lookup ops v inode name ≡ some (r, v'))
        × Looked (tree k s) r
        × AgreeBelow limit v.bytes v'.bytes
        × I v'
  unfolding dentry_lookup dentry_allocate
  dentry_lookup_lem v inode name k s i (there, sb, ino, is_mode) p is ok low =
      let (block, v₁) = ops.kmalloc v in
      let (high, same, inodes) = serves.block_at v i in
      let is₁ = agree-IsString limit v.bytes v₁.bytes name s (λ x lt. same x) low is in
      let short = short-IsName s ok in
      let m = named_bytes v₁.bytes block name in
      let outside =
        named_outside v₁.bytes block name s short (inr (omega (arith, low, high))) is₁ in
      let v₂ = record v₁ { bytes = m } in
      let i₂ = serves.name_in v m i outside in
      let d : Dentry = record { d_sb = 0; d_ino = 0; d_name = block } in
      let stands : Stands mode v₂ inode k = (
        there,
        ap (λ (n : Inode). n.i_sb) (inodes inode) ∙ sb,
        ap (λ (n : Inode). n.i_ino) (inodes inode) ∙ ino,
        is_mode ∙ ap (λ (n : Inode). some n.i_mode) (sym (inodes inode)),
      ) in
      let (ret, d', v', e, answers, agree, i') =
        serves.looks v₂ inode k d s i₂ stands high
          (named-IsString v₁.bytes block name s short (inr (omega (arith, low, high))) is₁) ok in
      let (r, e', looked) = unless_negative-Looked (tree k s) ret d' v' answers in
      (
        r,
        v',
        rw
            (
              ne→==-false inode 0 there,
              ne→==-false name 0 (λ z. absurd (omega (arith, z, p))),
              ne→==-false block 0 (λ z. absurd (omega (arith, z, high, some_limit))),
              e,
            )
            (ap some e'),
        looked,
        (λ x lt. agree x lt ∙ outside x (ground (arith, lt, high)) ∙ same x),
        i',
      )

  -- A new inode with a key, before `read_inode`.
  abbrev fresh : Vfs A → ℕ → ℕ → ℕ → Vfs A
  fresh v block sb ino =
      let zeroed = record (store_inode v block no_inode) {
        i_mp = λ x. if block == x then [] else v.i_mp x;
      } in
      store_inode zeroed block (record (zeroed.inodes block) { i_ino = ino; i_sb = sb })

  resolve_cached :
      (v : Vfs A) (d : Dentry)
      → ops.hashmap_get v.state d.d_sb d.d_ino ≢ 0
      → inode_resolve_dentry ops v d ≡ (ops.hashmap_get v.state d.d_sb d.d_ino, v)
  unfolding inode_resolve_dentry
  resolve_cached v d ne = rw (ne→==-false (ops.hashmap_get v.state d.d_sb d.d_ino) 0 ne) refl

  resolve_new :
      (v : Vfs A) (d : Dentry)
      → ops.hashmap_get v.state d.d_sb d.d_ino ≡ 0
      → let (block, v') = ops.kmalloc v in
        block ≢ 0
        → inode_resolve_dentry ops v d ≡ (block, serves.read (fresh v' block d.d_sb d.d_ino) block)
  unfolding inode_resolve_dentry inode_allocate
  resolve_new v d e ne =
      rw (e, serves.no_alloc_inode, serves.read_inode, ne→==-false (ops.kmalloc v).0 0 ne)
        (rw (ne→==-false (ops.kmalloc v).0 0 ne) refl)

  mountpoint_of :
      (v : Vfs A) (inode : ℕ)
      → inode ≢ 0
      → path_resolve_mountpoint v inode ≡ some (get_or (v.i_mp inode) 0 inode)
  unfolding path_resolve_mountpoint
  mountpoint_of v inode ne = rw (ne→==-false inode 0 ne) refl

  -- The inode of the key, and the one that covers it.
  pub inode_resolve_dentry_lem :
      (v : Vfs A) (d : Dentry) (dir k : Key) (s : List ℕ)
      → I v
      → HasKey d k
      → tree dir s ≡ some k
      → (inode : ℕ) × (v' : Vfs A) × (inode_resolve_dentry ops v d ≡ (inode, v'))
        × Stands mode v' inode k
        × ((next : ℕ) × (path_resolve_mountpoint v' inode ≡ some next)
            × Stands mode v' next (cover k))
        × AgreeBelow limit v.bytes v'.bytes
        × I v'
  inode_resolve_dentry_lem v d dir k s i (sb, ino) entry =
      let cached : ops.hashmap_get v.state d.d_sb d.d_ino ≡ ops.hashmap_get v.state k.0 k.1 =
        rw (sb, ino) refl in
      elim (ℕ_discrete (ops.hashmap_get v.state k.0 k.1) 0) [
        | no ne ↦
            let inode = ops.hashmap_get v.state k.0 k.1 in
            let (stands, covered) = serves.cached v k i ne in
            (
              inode,
              v,
              resolve_cached v d (λ z. ne (sym cached ∙ z)) ∙ ap (λ (n : ℕ). (n, v)) cached,
              stands,
              (get_or (v.i_mp inode) 0 inode, mountpoint_of v inode ne, covered),
              (λ x lt. refl),
              i,
            )
        | yes z ↦
            let (block, v₁) = ops.kmalloc v in
            let (high, same, inodes) = serves.block_at v i in
            let ne : block ≢ 0 = λ e. absurd (omega (arith, e, high, some_limit)) in
            let found = fresh v₁ block d.d_sb d.d_ino in
            let i₂ : I found =
              serves.inode_in v found.inodes found.i_mp i
                (λ x off. rw (ne→==-false block x off) refl)
                (λ x off. rw (ne→==-false block x off) refl) in
            let (stands, unmounted, agree, i') =
              serves.reads found block dir k s i₂ ne entry (rw (==_refl block) sb)
                (rw (==_refl block) ino) in
            let v' = serves.read found block in
            let none_there : v'.i_mp block ≡ [] = unmounted ∙ rw (==_refl block) refl in
            (
              block,
              v',
              resolve_new v d (cached ∙ z) ne,
              stands,
              (
                block,
                mountpoint_of v' block ne ∙ rw none_there refl,
                rw (serves.uncached v k i z) stands,
              ),
              (λ x lt. agree x lt ∙ same x),
              i',
            )
      ]
