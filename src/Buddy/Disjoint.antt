-- ===== src/Buddy/Disjoint.antt =====
-- Two calls of `buddy_alloc` of lib/buddy.c in a row.
use mathlib.Core.Option.{some-injective}
use mathlib.Core.Path.{subst}
use mint.Base.{ℕ, ◌+◌, ◌^◌, ◌≤◌, ◌<◌, ◌≡◌, ◌≢◌, inl, inr, ap, sym, ◌∙◌, arith, some}
use mint.Stack.{Ram}
use mint.Buddy.{Buddy, wanted_order, buddy_alloc}
use mint.Buddy.Cover.{Lists, inside}
use mint.Buddy.Invariant.{IsBuddy}
use mint.Buddy.Split.{Leaves}
use mint.Buddy.Alloc.{buddy_alloc_lem}

-- A call that returns an address other than `NULL` takes a block there, and keeps the invariant.
taken_by_call :
    {zone taken : ℕ → ℕ} {limit : ℕ} {ram : Ram} {b : Buddy} {free : Lists}
    (v : IsBuddy zone taken limit ram b free) (size a : ℕ) (b' : Buddy) (ram' : Ram)
    → 0 < size
    → size < 2 ^ 64
    → buddy_alloc b size ram ≡ some (a, b', ram')
    → a ≢ 0
    → Leaves zone (λ x. taken x + inside (wanted_order b size) a x) limit b ram b' ram'
taken_by_call {zone} {taken} {limit} {ram} {b} v size a b' ram' p h e ne =
    elim (buddy_alloc_lem v size p h).1 [
      | inl (_, r) ↦ absurd (ne (sym (ap (λ t. t.0) (some-injective _ _ (sym r ∙ e)))))
      | inr (k, a₁, rest, b₁, ram₁, l, r, al, leaves) ↦
          subst
            (λ (t : ℕ × Buddy × Ram).
              Leaves zone (λ x. taken x + inside (wanted_order b size) t.0 x) limit b ram t.1 t.2)
            (some-injective _ _ (sym r ∙ e)) leaves
    ]

-- In a valid allocator, two calls in a row for positive numbers of bytes that both return an address
-- other than 0 give blocks without a common byte.
pub buddy_alloc_disjoint :
    {zone taken : ℕ → ℕ} {limit : ℕ} {ram : Ram} {b : Buddy} {free : Lists}
    (v : IsBuddy zone taken limit ram b free) (size a size' a' : ℕ) (b' b'' : Buddy)
    (ram' ram'' : Ram)
    → 0 < size
    → size < 2 ^ 64
    → 0 < size'
    → size' < 2 ^ 64
    → buddy_alloc b size ram ≡ some (a, b', ram')
    → buddy_alloc b' size' ram' ≡ some (a', b'', ram'')
    → a ≢ 0
    → a' ≢ 0
    → (x : ℕ) → inside (wanted_order b size) a x + inside (wanted_order b' size') a' x ≤ 1
buddy_alloc_disjoint v size a size' a' b' b'' ram' ram'' p h p' h' e e' ne ne' x =
    let first = taken_by_call v size a b' ram' p h e ne in
    let second = taken_by_call first.valid size' a' b'' ram'' p' h' e' ne' in
    omega (arith, second.valid.conserved x, second.valid.once x)
