-- ===== src/Virtual.antt =====
-- mm/virtual.c: the loops over the pages of a range. What `arch_virtual_map` and `arch_virtual_unmap` do with one page
-- is a parameter. A context goes by its address, and `NULL` is 0.
pub mod Pages
use mint.Base.{ℕ, zero, suc, ◌+◌, ◌||◌, Option, none, some, ltb, ◌==◌, if◌then◌else◌}
use mint.Math.{u64}

abbrev pub page_size : ℕ
page_size = 4096

module _ {M : Type 0} (arch_virtual_map : ℕ → ℕ → ℕ → ℕ → M → M) where
  -- The loop of `virtual_map`, on fuel.
  unfoldable pub map_from : ℕ → ℕ → ℕ → ℕ → ℕ → ℕ → ℕ → M → Option M
  map_from zero context virtual physical size flags mapped m = none
  map_from (suc fuel) context virtual physical size flags mapped m =
      let rest =
        map_from fuel context virtual physical size flags (u64 (mapped + page_size))
          (arch_virtual_map context (u64 (virtual + mapped)) (u64 (physical + mapped)) flags m) in
      if ltb mapped size then rest else some m

  unfoldable pub virtual_map : ℕ → ℕ → ℕ → ℕ → ℕ → ℕ → M → Option M
  virtual_map fuel context virtual physical size flags m =
      if size == 0 || context == 0
      then some m
      else map_from fuel context virtual physical size flags 0 m

module _ {M : Type 0} (arch_virtual_unmap : ℕ → ℕ → M → M) where
  -- The loop of `virtual_unmap`, on fuel.
  unfoldable pub unmap_from : ℕ → ℕ → ℕ → ℕ → ℕ → M → Option M
  unmap_from zero context virtual size mapped m = none
  unmap_from (suc fuel) context virtual size mapped m =
      let rest =
        unmap_from fuel context virtual size (u64 (mapped + page_size))
          (arch_virtual_unmap context virtual m) in
      if ltb mapped size then rest else some m

  unfoldable pub virtual_unmap : ℕ → ℕ → ℕ → ℕ → M → Option M
  virtual_unmap fuel context virtual size m =
      if size == 0 || context == 0 then some m else unmap_from fuel context virtual size 0 m
