-- ===== src/Virtual/Pages.antt =====
-- Which pages the loops of mm/virtual.c reach.
use mint.Base.{
  ℕ, zero, suc, ◌+◌, ◌-◌, ◌*◌, ◌/◌, ◌^◌, ◌<◌, some, ◌≡◌, ◌≢◌, refl, arith, ne→==-false, lt→ltb,
  not_lt→ltb,
}
use mint.Math.{u64}
use mint.Virtual.{page_size, map_from, virtual_map, unmap_from, virtual_unmap}

-- A step for each of `n` pages, from the page `k` on.
abbrev pub each_page : {M : Type 0} → (ℕ → M → M) → ℕ → ℕ → M → M
each_page step zero k m = m
each_page step (suc n) k m = each_page step n (k + 1) (step k m)

-- The number of pages that a size needs.
abbrev pub pages_of : ℕ → ℕ
pages_of size = (size + (page_size - 1)) / page_size

module _ {M : Type 0} (arch_virtual_map : ℕ → ℕ → ℕ → ℕ → M → M)
    (context virtual physical size flags : ℕ) (small : size + page_size < 2 ^ 64) where
  abbrev pub map_page : ℕ → M → M
  map_page k =
      arch_virtual_map context (u64 (virtual + page_size * k)) (u64 (physical + page_size * k))
        flags

  map_from_lem :
      (fuel n k : ℕ) (m : M)
      → k + n ≡ pages_of size
      → n < fuel
      → map_from arch_virtual_map fuel context virtual physical size flags (page_size * k) m
        ≡ some (each_page map_page n k m)
  unfolding map_from
  map_from_lem zero n k m e lt = absurd (omega arith)
  map_from_lem (suc fuel) zero k m e lt =
      rw (not_lt→ltb (page_size * k) size (omega (arith, e))) refl
  map_from_lem (suc fuel) (suc n) k m e lt =
      let next : u64 (page_size * k + page_size) ≡ page_size * (k + 1) = omega (arith, e, small) in
      rw (lt→ltb (page_size * k) size (omega (arith, e)), next)
        (map_from_lem fuel n (k + 1) (map_page k m) (omega (arith, e)) (omega (arith, lt)))

  -- For a size that is not 0 and does not come within a page of 2^64, `virtual_map` stops after as many pages as the size
  -- needs, and maps each page of the range, in turn, to the page that lies as far behind the physical address.
  pub virtual_map-each_page :
      (fuel : ℕ) (m : M)
      → 0 < size
      → context ≢ 0
      → pages_of size < fuel
      → virtual_map arch_virtual_map fuel context virtual physical size flags m
        ≡ some (each_page map_page (pages_of size) 0 m)
  unfolding virtual_map
  virtual_map-each_page fuel m positive ne lt =
      rw (ne→==-false size 0 (λ z. absurd (omega (arith, z, positive))), ne→==-false context 0 ne)
        (map_from_lem fuel (pages_of size) 0 m (omega arith) lt)

module _ {M : Type 0} (arch_virtual_unmap : ℕ → ℕ → M → M) (context virtual size : ℕ)
    (small : size + page_size < 2 ^ 64) where
  unmap_from_lem :
      (fuel n k : ℕ) (m : M)
      → k + n ≡ pages_of size
      → n < fuel
      → unmap_from arch_virtual_unmap fuel context virtual size (page_size * k) m
        ≡ some (each_page (λ j. arch_virtual_unmap context virtual) n k m)
  unfolding unmap_from
  unmap_from_lem zero n k m e lt = absurd (omega arith)
  unmap_from_lem (suc fuel) zero k m e lt =
      rw (not_lt→ltb (page_size * k) size (omega (arith, e))) refl
  unmap_from_lem (suc fuel) (suc n) k m e lt =
      let next : u64 (page_size * k + page_size) ≡ page_size * (k + 1) = omega (arith, e, small) in
      rw (lt→ltb (page_size * k) size (omega (arith, e)), next)
        (unmap_from_lem fuel n (k + 1) (arch_virtual_unmap context virtual m) (omega (arith, e))
          (omega (arith, lt)))

  -- Under the same conditions `virtual_unmap` stops after as many rounds, but each of them unmaps the first page.
  pub virtual_unmap_first :
      (fuel : ℕ) (m : M)
      → 0 < size
      → context ≢ 0
      → pages_of size < fuel
      → virtual_unmap arch_virtual_unmap fuel context virtual size m
        ≡ some (each_page (λ j. arch_virtual_unmap context virtual) (pages_of size) 0 m)
  unfolding virtual_unmap
  virtual_unmap_first fuel m positive ne lt =
      rw (ne→==-false size 0 (λ z. absurd (omega (arith, z, positive))), ne→==-false context 0 ne)
        (unmap_from_lem fuel (pages_of size) 0 m (omega arith) lt)
