-- ===== src/Tests/FilesystemsTests.antt =====
-- fs/fs.c with the file system 10 of the name "b" at 503, and 20 of the name "a" at 501.
use mint.Base.{[], ◌∷◌, some, ◌≡◌, refl, arith, ◌==◌, if◌then◌else◌}
use mint.Ring.{list_add, list_runtime_init}
use mint.Filesystems.{Filesystems, filesystem_register, filesystem_get}
use mint.Filesystems.Lookup.{named, filesystem_get-filesystem_register}
use mint.Tests.RingTests.{blank, one_element-IsRing}

abbrev registry : Filesystems
registry = record {
  links = list_add (list_runtime_init blank 100) 100 10;
  name = λ x. if x == 10 then 503 else 501;
  bytes = λ x. if x == 501 then 97 else if x == 503 then 98 else 0;
  fs_list = 100;
}

filesystem_get-filesystem_register_example :
    (filesystem_get 3 10 registry 503 ≡ some (named (98 ∷ []) ((10, 98 ∷ []) ∷ [])))
    × (filesystem_get 3 10 (filesystem_register registry 20).1 503
        ≡ some (named (98 ∷ []) ((20, 97 ∷ []) ∷ (10, 98 ∷ []) ∷ [])))
filesystem_get-filesystem_register_example =
    filesystem_get-filesystem_register 3 10 registry 20 503 (97 ∷ []) (98 ∷ []) ((10, 98 ∷ []) ∷ [])
      one_element-IsRing
      (
        (refl, (λ z. absurd (omega (arith, z))), refl),
        (omega arith, omega arith, tt),
        omega arith,
        (
          (refl, (λ z. absurd (omega (arith, z))), refl),
          (omega arith, omega arith, tt),
          omega arith,
          tt,
        ),
      )
      (λ z. absurd (omega (arith, z))) ((λ z. absurd (omega (arith, z))), tt)
      (refl, (λ z. absurd (omega (arith, z))), refl) (omega arith, omega arith, tt) (omega arith)
