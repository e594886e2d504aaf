-- ===== src/Irqchip/Find.antt =====
-- The search and the mask loop of drivers/irqchip/irqchip.c.
use mint.Base.{
  ℕ, zero, suc, ◌+◌, ◌^◌, ◌<◌, bit_and, List, [], ◌∷◌, length, true, false, Option, none, some, ◌≡◌,
  ◌≢◌, sym, ap, ◌∙◌, refl, arith, ◌==◌, ==_refl, ne→==-false, if◌then◌else◌, Bool-cases,
  Option-cases, inl, inr,
}
use mint.Ring.Chain.{IsChain, IsOutside, IsRing}
use mint.Irqchip.{
  InterruptController, Irqchip, with_status, called, guarded, ic_status_disabled, ic_status_enabled,
  find_from, find_interrupt_controller, interrupt_controller_mask, interrupt_controller_unmask,
  restore_masks, interrupt_controller_enable,
}

-- The first of the controllers with an identifier.
abbrev pub first_with : (ℕ → InterruptController) → ℕ → List ℕ → Option ℕ
first_with chips controller [] = none
first_with chips controller (c ∷ cs) =
    let rest = first_with chips controller cs in
    if (chips c).identifier == controller then some c else rest

search :
    (fuel : ℕ) (s : Irqchip) (controller a : ℕ) (cs : List ℕ)
    → IsOutside s.interrupt_controllers cs
    → IsChain s.links a cs s.interrupt_controllers
    → length cs < fuel
    → find_from fuel s controller (s.links.next a) ≡ some (first_with s.chips controller cs)
unfolding find_from
search zero s controller a cs o ch h = absurd (omega arith)
search (suc fuel) s controller a [] o ch h = rw (ch.0, ==_refl s.interrupt_controllers) refl
search (suc fuel) s controller a (c ∷ cs) o ch h =
    let ne : c ≢ s.interrupt_controllers = λ e. o.0 (sym e) in
    let rest = search fuel s controller c cs o.1 ch.2 (omega arith) in
    rw (ch.0, ne→==-false c s.interrupt_controllers ne, rest)
      (elim (Bool-cases ((s.chips c).identifier == controller)) [
        | inl e ↦ rw e refl
        | inr e ↦ rw e refl
      ])

-- On a list of controllers, the search stops and gives the first one with the identifier, or `NULL`.
pub find_interrupt_controller_lem :
    (fuel : ℕ) (s : Irqchip) (controller : ℕ) (cs : List ℕ)
    → IsRing s.links s.interrupt_controllers cs
    → length cs < fuel
    → find_interrupt_controller fuel s controller ≡ some (first_with s.chips controller cs)
find_interrupt_controller_lem fuel s controller cs r h =
    search fuel s controller s.interrupt_controllers cs r.outside r.chain h

pub guarded-some :
    (s : Irqchip) (c : ℕ) (o : Option ℕ) (rest : ℕ → Irqchip × ℕ)
    → o ≡ some c
    → guarded s o rest ≡ rest c
guarded-some s c o rest e = rw e refl

mask_set :
    (s : Irqchip) (irq : ℕ)
    → (bit_and s.irq_mask (2 ^ irq) == 0) ≡ false
    → (interrupt_controller_mask s irq).0 ≡ s
unfolding interrupt_controller_mask
mask_set s irq h = elim (Option-cases s.interrupt_controller) [
  | inl e ↦ rw e refl
  | inr (c, e) ↦ rw (e, h) refl
]

unmask_clear :
    (s : Irqchip) (irq : ℕ)
    → (bit_and s.irq_mask (2 ^ irq) == 0) ≡ true
    → (interrupt_controller_unmask s irq).0 ≡ s
unfolding interrupt_controller_unmask
unmask_clear s irq h = elim (Option-cases s.interrupt_controller) [
  | inl e ↦ rw e refl
  | inr (c, e) ↦ rw (e, h) refl
]

restore_masks_same : (n i : ℕ) (s : Irqchip) → restore_masks n i s ≡ s
unfolding restore_masks
restore_masks_same zero i s = refl
restore_masks_same (suc n) i s = elim (Bool-cases (bit_and s.irq_mask (2 ^ i) == 0)) [
  | inl e ↦ rw (e, unmask_clear s i e) (restore_masks_same n (i + 1) s)
  | inr e ↦ rw (e, mask_set s i e) (restore_masks_same n (i + 1) s)
]

-- Enabling a controller that is disabled calls its `enable` function and nothing else: the loop that is
-- to restore the masks finds every bit as it wants it, and programs none.
pub interrupt_controller_enable_lem :
    (s : Irqchip) (c : ℕ)
    → s.interrupt_controller ≡ some c
    → (s.chips c).status ≡ ic_status_disabled
    → interrupt_controller_enable s ≡ (
      with_status (record s { ports = called (s.chips c).enable s.ports }) c ic_status_enabled,
      0,
    )
unfolding interrupt_controller_enable
interrupt_controller_enable_lem s c e d =
    let on = record s { ports = called (s.chips c).enable s.ports } in
    let same =
      ap (λ (t : Irqchip). (with_status t c ic_status_enabled, 0)) (restore_masks_same 32 0 on) in
    guarded-some s c _ _ e ∙ rw d same
