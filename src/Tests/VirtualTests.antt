-- ===== src/Tests/VirtualTests.antt =====
-- mm/virtual.c with a list of the pages reached, the last one first.
use mint.Base.{ℕ, List, [], ◌∷◌, some, ◌≡◌, refl, arith}
use mint.Virtual.{virtual_map, map_from, virtual_unmap, unmap_from}
use mint.Virtual.Pages.{each_page, pages_of, map_page, virtual_map-each_page, virtual_unmap_first}

abbrev note_map : ℕ → ℕ → ℕ → ℕ → List (ℕ × ℕ) → List (ℕ × ℕ)
note_map context virtual physical flags done = (virtual, physical) ∷ done

abbrev note_unmap : ℕ → ℕ → List ℕ → List ℕ
note_unmap context virtual done = virtual ∷ done

map_run :
    virtual_map note_map 3 1 0x8000 0x20000 4097 3 []
    ≡ some ((0x9000, 0x21000) ∷ (0x8000, 0x20000) ∷ [])
unfolding virtual_map map_from
map_run = refl

unmap_run : virtual_unmap note_unmap 3 1 0x8000 4097 [] ≡ some (0x8000 ∷ 0x8000 ∷ [])
unfolding virtual_unmap unmap_from
unmap_run = refl

virtual_map-each_page_example :
    virtual_map note_map 3 1 0x8000 0x20000 4097 3 []
    ≡ some
        (each_page (map_page note_map 1 0x8000 0x20000 4097 3 (omega arith)) (pages_of 4097) 0 [])
virtual_map-each_page_example =
    virtual_map-each_page note_map 1 0x8000 0x20000 4097 3 (omega arith) 3 [] (omega arith)
      (λ z. absurd (omega (arith, z))) (omega arith)

virtual_unmap_first_example :
    virtual_unmap note_unmap 3 1 0x8000 4097 []
    ≡ some (each_page (λ j. note_unmap 1 0x8000) (pages_of 4097) 0 [])
virtual_unmap_first_example =
    virtual_unmap_first note_unmap 1 0x8000 4097 (omega arith) 3 [] (omega arith)
      (λ z. absurd (omega (arith, z))) (omega arith)
