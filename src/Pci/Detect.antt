-- ===== src/Pci/Detect.antt =====
-- Which devices `pci_detect` of drivers/pci/pci.c lists.
use mathlib.Core.Option.{none-ne-some, some-injective}
use mathlib.Core.Bool.{true≢false}
use native.Mathlib.Decide.{ℕ_discrete}
use mint.Base.{
  Option-cases, Bool-cases, ℕ, zero, suc, ◌+◌, ◌≤◌, ◌<◌, [], ◌≡◌, ◌≢◌, ◌⊎◌, inl, inr, sym, ap, ◌∙◌,
  arith,
}
use mint.Ring.Chain.{IsRing}
use mint.Pci.{
  Pci, pci_probe, add_device, add_found, is_multi, detect_functions, detect_device, detect_devices,
  detect_buses, pci_detect,
}
use mint.Pci.Listed.{Responds, IsPresent, Lists, renamed, grow}

module _ (inb : ℕ → ℕ → ℕ) (block : ℕ → ℕ)
    (one_to_one : (i j : ℕ) → i ≢ j → block i ≢ block j) where
  found-Lists :
      (b d f : ℕ) (pci : Pci) (S : ℕ → ℕ → ℕ → Type 0)
      → (S b d f → ⊥)
      → Lists inb block pci S
      → Lists inb block
          (add_found inb block b d f pci (pci_probe inb b d f))
          (λ b' d' f'. S b' d' f' ⊎ ((b' ≡ b) × (d' ≡ d) × (f' ≡ f) × Responds inb b' d' f'))
  found-Lists b d f pci S new l = elim (Option-cases (pci_probe inb b d f)) [
    | inl e ↦ rw e (
        renamed inb block pci S
          (λ b' d' f'. S b' d' f' ⊎ ((b' ≡ b) × (d' ≡ d) × (f' ≡ f) × Responds inb b' d' f'))
          (λ b' d' f' s. inl s)
          (λ b' d' f' t. elim t [
            | inl s ↦ s
            | inr (eb, ed, ef, (h, r)) ↦ absurd (none-ne-some h (sym e ∙ (rw (eb, ed, ef) at r)))
          ])
          l)
    | inr (h, e) ↦ rw e (
        renamed inb block (add_device inb block b d f pci h)
          (λ b' d' f'. S b' d' f' ⊎ ((b' ≡ b) × (d' ≡ d) × (f' ≡ f)))
          (λ b' d' f'. S b' d' f' ⊎ ((b' ≡ b) × (d' ≡ d) × (f' ≡ f) × Responds inb b' d' f'))
          (λ b' d' f' t. elim t [
            | inl s ↦ inl s
            | inr (eb, ed, ef) ↦ inr (eb, ed, ef, (h, rw (eb, ed, ef) e))
          ])
          (λ b' d' f' t. elim t [ inl s ↦ inl s | inr (eb, ed, ef, r) ↦ inr (eb, ed, ef) ])
          (grow inb block one_to_one b d f pci h S e new l))
  ]

  functions-Lists :
      (n b d f : ℕ) (pci : Pci) (S : ℕ → ℕ → ℕ → Type 0)
      → ((f' : ℕ) → f ≤ f' → S b d f' → ⊥)
      → Lists inb block pci S
      → Lists inb block (detect_functions inb block n b d f pci) (λ b' d' f'.
        S b' d' f' ⊎ ((b' ≡ b) × (d' ≡ d) × (f ≤ f') × (f' < f + n) × Responds inb b' d' f'))
  unfolding detect_functions
  functions-Lists zero b d f pci S new l =
      renamed inb block pci S _ (λ b' d' f' s. inl s)
        (λ b' d' f' t. elim t [
          | inl s ↦ s
          | inr (eb, ed, low, high, r) ↦ absurd (omega (arith, low, high))
        ])
        l
  functions-Lists (suc n) b d f pci S new l =
      renamed inb block _ _ _
        (λ b' d' f' t. elim t [
          | inl (inl s) ↦ inl s
          | inl (inr (eb, ed, ef, r)) ↦ inr (eb, ed, omega (arith, ef), omega (arith, ef), r)
          | inr (eb, ed, low, high, r) ↦ inr (eb, ed, omega (arith, low), omega (arith, high), r)
        ])
        (λ b' d' f' t. elim t [
          | inl s ↦ inl (inl s)
          | inr (eb, ed, low, high, r) ↦ elim (ℕ_discrete f' f) [
            | yes ef ↦ inl (inr (eb, ed, ef, r))
            | no ne ↦ inr (eb, ed, omega (arith, low, ne), omega (arith, high), r)
          ]
        ])
        (functions-Lists n b d (f + 1) (add_found inb block b d f pci (pci_probe inb b d f)) _
          (λ f' le t. elim t [
            | inl s ↦ new f' (omega arith) s
            | inr (eb, ed, ef, r) ↦ absurd (omega (arith, ef, le))
          ])
          (found-Lists b d f pci S (new f (omega arith)) l))

  device-Lists :
      (b d : ℕ) (pci : Pci) (S : ℕ → ℕ → ℕ → Type 0)
      → ((f' : ℕ) → S b d f' → ⊥)
      → Lists inb block pci S
      → Lists inb block
          (detect_device inb block b d pci (pci_probe inb b d 0))
          (λ b' d' f'. S b' d' f' ⊎ ((b' ≡ b) × (d' ≡ d) × IsPresent inb b' d' f'))
  device-Lists b d pci S new l = elim (Option-cases (pci_probe inb b d 0)) [
    | inl e ↦ rw e (
        renamed inb block pci S
          (λ b' d' f'. S b' d' f' ⊎ ((b' ≡ b) × (d' ≡ d) × IsPresent inb b' d' f'))
          (λ b' d' f' s. inl s)
          (λ b' d' f' t. elim t [
            | inl s ↦ s
            | inr (eb, ed, ((h, r), inl ef)) ↦
                absurd (none-ne-some h (sym e ∙ (rw (eb, ed, ef) at r)))
            | inr (eb, ed, (r, inr (lt, (h, p, m)))) ↦
                absurd (none-ne-some h (sym e ∙ (rw (eb, ed) at p)))
          ])
          l)
    | inr (h, e) ↦ elim (Bool-cases (is_multi h)) [
      | inl many ↦
          rw (e, many)
            (renamed inb block _ _ _
              (λ b' d' f' t. elim t [
                | inl (inl s) ↦ inl s
                | inl (inr (eb, ed, ef)) ↦ inr (eb, ed, ((h, rw (eb, ed, ef) e), inl ef))
                | inr (eb, ed, low, high, r) ↦
                    inr (eb, ed, (r, inr (high, (h, rw (eb, ed) e, many))))
              ])
              (λ b' d' f' t. elim t [
                | inl s ↦ inl (inl s)
                | inr (eb, ed, (r, inl ef)) ↦ inl (inr (eb, ed, ef))
                | inr (eb, ed, (r, inr (lt, o))) ↦ elim (ℕ_discrete f' 0) [
                  | yes ef ↦ inl (inr (eb, ed, ef))
                  | no ne ↦ inr (eb, ed, omega (arith, ne), lt, r)
                ]
              ])
              (functions-Lists 7 b d 1 (add_device inb block b d 0 pci h) _
                (λ f' le t. elim t [
                  | inl s ↦ new f' s
                  | inr (eb, ed, ef) ↦ absurd (omega (arith, ef, le))
                ])
                (grow inb block one_to_one b d 0 pci h S e (new 0) l)))
      | inr one ↦
          rw (e, one)
            (renamed inb block _ _ _
              (λ b' d' f' t. elim t [
                | inl s ↦ inl s
                | inr (eb, ed, ef) ↦ inr (eb, ed, ((h, rw (eb, ed, ef) e), inl ef))
              ])
              (λ b' d' f' t. elim t [
                | inl s ↦ inl s
                | inr (eb, ed, (r, inl ef)) ↦ inr (eb, ed, ef)
                | inr (eb, ed, (r, inr (lt, (h', p, m)))) ↦
                    let same = some-injective _ _ (sym e ∙ (rw (eb, ed) at p)) in
                    absurd (true≢false (sym m ∙ ap is_multi (sym same) ∙ one))
              ])
              (grow inb block one_to_one b d 0 pci h S e (new 0) l))
    ]
  ]

  devices-Lists :
      (n b d : ℕ) (pci : Pci) (S : ℕ → ℕ → ℕ → Type 0)
      → ((d' f' : ℕ) → d ≤ d' → S b d' f' → ⊥)
      → Lists inb block pci S
      → Lists inb block
          (detect_devices inb block n b d pci)
          (λ b' d' f'. S b' d' f' ⊎ ((b' ≡ b) × (d ≤ d') × (d' < d + n) × IsPresent inb b' d' f'))
  unfolding detect_devices
  devices-Lists zero b d pci S new l =
      renamed inb block pci S _ (λ b' d' f' s. inl s)
        (λ b' d' f' t. elim t [
          | inl s ↦ s
          | inr (eb, low, high, p) ↦ absurd (omega (arith, low, high))
        ])
        l
  devices-Lists (suc n) b d pci S new l =
      renamed inb block _ _ _
        (λ b' d' f' t. elim t [
          | inl (inl s) ↦ inl s
          | inl (inr (eb, ed, p)) ↦ inr (eb, omega (arith, ed), omega (arith, ed), p)
          | inr (eb, low, high, p) ↦ inr (eb, omega (arith, low), omega (arith, high), p)
        ])
        (λ b' d' f' t. elim t [
          | inl s ↦ inl (inl s)
          | inr (eb, low, high, p) ↦ elim (ℕ_discrete d' d) [
            | yes ed ↦ inl (inr (eb, ed, p))
            | no ne ↦ inr (eb, omega (arith, low, ne), omega (arith, high), p)
          ]
        ])
        (devices-Lists n b (d + 1) (detect_device inb block b d pci (pci_probe inb b d 0)) _
          (λ d' f' le t. elim t [
            | inl s ↦ new d' f' (omega arith) s
            | inr (eb, ed, p) ↦ absurd (omega (arith, ed, le))
          ])
          (device-Lists b d pci S (λ f'. new d f' (omega arith)) l))

  buses-Lists :
      (n b : ℕ) (pci : Pci) (S : ℕ → ℕ → ℕ → Type 0)
      → ((b' d' f' : ℕ) → b ≤ b' → S b' d' f' → ⊥)
      → Lists inb block pci S
      → Lists inb block
          (detect_buses inb block n b pci)
          (λ b' d' f'. S b' d' f' ⊎ ((b ≤ b') × (b' < b + n) × (d' < 32) × IsPresent inb b' d' f'))
  unfolding detect_buses
  buses-Lists zero b pci S new l =
      renamed inb block pci S _ (λ b' d' f' s. inl s)
        (λ b' d' f' t. elim t [
          | inl s ↦ s
          | inr (low, high, lt, p) ↦ absurd (omega (arith, low, high))
        ])
        l
  buses-Lists (suc n) b pci S new l =
      renamed inb block _ _ _
        (λ b' d' f' t. elim t [
          | inl (inl s) ↦ inl s
          | inl (inr (eb, low, lt, p)) ↦ inr (omega (arith, eb), omega (arith, eb), lt, p)
          | inr (low, high, lt, p) ↦ inr (omega (arith, low), omega (arith, high), lt, p)
        ])
        (λ b' d' f' t. elim t [
          | inl s ↦ inl (inl s)
          | inr (low, high, lt, p) ↦ elim (ℕ_discrete b' b) [
            | yes eb ↦ inl (inr (eb, omega arith, lt, p))
            | no ne ↦ inr (omega (arith, low, ne), omega (arith, high), lt, p)
          ]
        ])
        (buses-Lists n (b + 1) (detect_devices inb block 32 b 0 pci) _
          (λ b' d' f' le t. elim t [
            | inl s ↦ new b' d' f' (omega arith) s
            | inr (eb, low, lt, p) ↦ absurd (omega (arith, eb, le))
          ])
          (devices-Lists 32 b 0 pci S (λ d' f' le. new b d' f' (omega arith)) l))

  -- With an empty list of devices, and a block of its own for each that is found, `pci_detect` ends with a list that has
  -- each function that answers once, with its header, and no others: those of the 256 buses and 32 devices with
  -- number 0, and with a number up to 7 of devices that say that they have more.
  pub pci_detect-Lists :
      (pci : Pci)
      → ((i : ℕ) → block i ≢ pci.pci_device_list)
      → IsRing pci.links pci.pci_device_list []
      → Lists inb block
          (pci_detect inb block pci)
          (λ b d f. (b < 256) × (d < 32) × IsPresent inb b d f)
  unfolding pci_detect
  pci_detect-Lists pci away ring =
      renamed inb block _ _ _
        (λ b d f t. elim t [ inl void ↦ absurd void | inr (low, high, lt, p) ↦ (high, lt, p) ])
        (λ b d f t. inr (omega arith, t.0, t.1, t.2))
        (buses-Lists 256 0 pci (λ b d f. ⊥) (λ b d f le s. s)
          (record {
            xs = [];
            away = away;
            ring = ring;
            fresh = λ i le. tt;
            sound = λ x a. absurd a;
            complete = λ b d f s. absurd s;
            unique = λ x y a. absurd a;
          }))
