-- ===== src/Pci/Listed.antt =====
-- What it is that the list of devices of drivers/pci/pci.c holds those of a set.
use mint.Base.{
  ℕ, ◌≤◌, ◌<◌, List, [], ◌∷◌, true, some, ◌==◌, false, ◌≡◌, ◌≢◌, ◌⊎◌, inl, inr, refl, sym, ◌∙◌,
  arith, ==_refl, ne→==-false,
}
use mint.Ring.Chain.{IsAmong, IsOutside, IsRing}
use mint.Ring.Add.{list_add-IsRing}
use mint.Pci.{PciHeader, Pci, pci_probe, add_device, is_multi}

module _ (inb : ℕ → ℕ → ℕ) where
  -- Something answers at a function of a device.
  abbrev pub Responds : ℕ → ℕ → ℕ → Type 0
  Responds b d f = (h : PciHeader) × (pci_probe inb b d f ≡ some h)

  -- The function 0 says that there are others.
  abbrev pub HasFunctions : ℕ → ℕ → Type 0
  HasFunctions b d = (h : PciHeader) × (pci_probe inb b d 0 ≡ some h) × (is_multi h ≡ true)

  abbrev pub IsPresent : ℕ → ℕ → ℕ → Type 0
  IsPresent b d f = Responds b d f × ((f ≡ 0) ⊎ ((f < 8) × HasFunctions b d))

  -- The listed devices are those of a set, each once allocated, with what they answer.
  pub record Lists (block : ℕ → ℕ) (pci : Pci) (S : ℕ → ℕ → ℕ → Type 0) : Type 0 where
    pub xs : List ℕ
    pub away : (i : ℕ) → block i ≢ pci.pci_device_list
    pub ring : IsRing pci.links pci.pci_device_list xs
    pub fresh : (i : ℕ) → pci.allocated ≤ i → IsOutside (block i) xs
    pub sound :
        (x : ℕ)
        → IsAmong x xs
        → S (pci.devices x).bus (pci.devices x).device (pci.devices x).function
          × (pci_probe inb (pci.devices x).bus (pci.devices x).device (pci.devices x).function
              ≡ some (pci.devices x).header)
    pub complete :
        (b d f : ℕ)
        → S b d f
        → (x : ℕ) × IsAmong x xs
          × ((pci.devices x).bus ≡ b)
          × ((pci.devices x).device ≡ d)
          × ((pci.devices x).function ≡ f)
    pub unique :
        (x y : ℕ)
        → IsAmong x xs
        → IsAmong y xs
        → (pci.devices x).bus ≡ (pci.devices y).bus
        → (pci.devices x).device ≡ (pci.devices y).device
        → (pci.devices x).function ≡ (pci.devices y).function
        → x ≡ y

  among_ne : (x y : ℕ) (xs : List ℕ) → IsOutside y xs → IsAmong x xs → y ≢ x
  among_ne x y [] o a = absurd a
  among_ne x y (z ∷ zs) o (inl e) = λ e'. o.0 (e' ∙ e)
  among_ne x y (z ∷ zs) o (inr a) = among_ne x y zs o.1 a

  -- Another name for the same set.
  pub renamed :
      (block : ℕ → ℕ) (pci : Pci) (S T : ℕ → ℕ → ℕ → Type 0)
      → ((b d f : ℕ) → S b d f → T b d f)
      → ((b d f : ℕ) → T b d f → S b d f)
      → Lists block pci S
      → Lists block pci T
  renamed block pci S T to from l = record {
    xs = l.xs;
    away = l.away;
    ring = l.ring;
    fresh = l.fresh;
    sound = λ x a. let (s, e) = l.sound x a in (to _ _ _ s, e);
    complete = λ b d f t. l.complete b d f (from b d f t);
    unique = l.unique;
  }

  module _ (block : ℕ → ℕ) (one_to_one : (i j : ℕ) → i ≢ j → block i ≢ block j) where
    pub grow :
        (b d f : ℕ) (pci : Pci) (h : PciHeader) (S : ℕ → ℕ → ℕ → Type 0)
        → pci_probe inb b d f ≡ some h
        → (S b d f → ⊥)
        → Lists block pci S
        → Lists block
            (add_device inb block b d f pci h)
            (λ b' d' f'. S b' d' f' ⊎ ((b' ≡ b) × (d' ≡ d) × (f' ≡ f)))
    grow b d f pci h S e new l = record {
      xs = block pci.allocated ∷ l.xs;
      away = l.away;
      ring =
          list_add-IsRing pci.links pci.pci_device_list (block pci.allocated) l.xs
            (l.away pci.allocated) (l.fresh pci.allocated (omega arith)) l.ring;
      fresh = λ i le. (
        one_to_one i pci.allocated (λ z. absurd (omega (arith, z, le))),
        l.fresh i (omega arith),
      );
      sound = λ x a. elim a [
        | inl z ↦ rw (z, ==_refl (block pci.allocated)) (inr (refl, refl, refl), e)
        | inr a' ↦
            let (s, p) = l.sound x a' in
            rw
              (ne→==-false (block pci.allocated) x
                (among_ne x (block pci.allocated) l.xs (l.fresh pci.allocated (omega arith)) a'))
              (inl s, p)
      ];
      complete = λ b' d' f' t. elim t [
        | inl s ↦
            let (x, a', eb, ed, ef) = l.complete b' d' f' s in
            let other =
              ne→==-false (block pci.allocated) x
                (among_ne x (block pci.allocated) l.xs (l.fresh pci.allocated (omega arith)) a') in
            (x, inr a', rw other eb, rw other ed, rw other ef)
        | inr (eb, ed, ef) ↦ (
          block pci.allocated,
          inl refl,
          rw (==_refl (block pci.allocated)) (sym eb),
          rw (==_refl (block pci.allocated)) (sym ed),
          rw (==_refl (block pci.allocated)) (sym ef),
        )
      ];
      unique = λ x y a a' eb ed ef. elim a [
        | inl z ↦ elim a' [
          | inl z' ↦ z ∙ sym z'
          | inr o' ↦ absurd (
              new (
                known y o' (rw (z, ==_refl (block pci.allocated), other y o') at eb)
                  (rw (z, ==_refl (block pci.allocated), other y o') at ed)
                  (rw (z, ==_refl (block pci.allocated), other y o') at ef)))
        ]
        | inr o ↦ elim a' [
          | inl z' ↦ absurd (
              new (
                known x o (sym (rw (z', ==_refl (block pci.allocated), other x o) at eb))
                  (sym (rw (z', ==_refl (block pci.allocated), other x o) at ed))
                  (sym (rw (z', ==_refl (block pci.allocated), other x o) at ef))))
          | inr o' ↦
              l.unique x y o o' (rw (other x o, other y o') at eb)
                (rw (other x o, other y o') at ed) (rw (other x o, other y o') at ef)
        ]
      ];
    }
      where
        other : (x : ℕ) → IsAmong x l.xs → (block pci.allocated == x) ≡ false
        other x a =
            ne→==-false (block pci.allocated) x
              (among_ne x (block pci.allocated) l.xs (l.fresh pci.allocated (omega arith)) a)

        known :
            (x : ℕ)
            → IsAmong x l.xs
            → b ≡ (pci.devices x).bus
            → d ≡ (pci.devices x).device
            → f ≡ (pci.devices x).function
            → S b d f
        known x a eb ed ef = rw (eb, ed, ef) (l.sound x a).0
