-- ===== src/Irqchip/Set.antt =====
-- `interrupt_controller_set` of drivers/irqchip/irqchip.c.
use mint.Base.{
  ℕ, ◌+◌, ◌^◌, ◌≤◌, ◌<◌, List, [], ◌∷◌, length, none, some, false, ◌≡◌, ◌⊎◌, inl, inr, ap, ◌∙◌,
  refl, arith, ◌==◌, if◌then◌else◌, ==_refl, Bool-cases, Option-cases,
}
use native.Mathlib.Decide.{ℕ_discrete}
use mint.Ring.Chain.{IsRing}
use mint.Interrupt.{interrupt_disable, interrupt_enable}
use mint.Interrupt.Nesting.{IsMasked, enable-disable}
use mint.Irqchip.{
  InterruptController, Ports, Irqchip, with_status, called, ic_status_uninitialized,
  ic_status_disabled, ic_status_enabled, start, find_interrupt_controller,
  interrupt_controller_enable, interrupt_controller_disable, interrupt_controller_set,
}
use mint.Irqchip.Find.{
  first_with, find_interrupt_controller_lem, guarded-some, interrupt_controller_enable_lem,
}

status_set : (s : Irqchip) (c v : ℕ) → ((with_status s c v).chips c).status ≡ v
status_set s c v = rw (==_refl c) refl

first_with-with_status :
    (s : Irqchip) (c v controller : ℕ) (cs : List ℕ)
    → first_with (with_status s c v).chips controller cs ≡ first_with s.chips controller cs
first_with-with_status s c v controller [] = refl
first_with-with_status s c v controller (d ∷ cs) = elim (Bool-cases (c == d)) [
  | inl e ↦ rw (e, first_with-with_status s c v controller cs) refl
  | inr e ↦ rw (e, first_with-with_status s c v controller cs) refl
]

-- `interrupt_controller_disable` changes at most the ports and one status.
disable_cases :
    (s : Irqchip)
    → ((interrupt_controller_disable s).0 ≡ s)
      ⊎ ((c : ℕ) × ((interrupt_controller_disable s).0
            ≡ with_status
                (record s { ports = called (s.chips c).enable s.ports })
                c
                ic_status_disabled))
unfolding interrupt_controller_disable
disable_cases s = elim (Option-cases s.interrupt_controller) [
  | inl e ↦ inl (rw e refl)
  | inr (c, e) ↦ elim (Bool-cases ((s.chips c).status == ic_status_enabled)) [
    | inl q ↦ inr (c, ap (λ t. t.0) (guarded-some s c _ _ e) ∙ rw q refl)
    | inr q ↦ inl (ap (λ t. t.0) (guarded-some s c _ _ e) ∙ rw q refl)
  ]
]

-- What a controller with a status writes to come up: its `init` if it has not been set up, and then its
-- `enable`, unless it is enabled already.
abbrev pub brought_up : ℕ → InterruptController → Ports → Ports
brought_up status chip ports =
    if status == ic_status_uninitialized
    then called chip.enable (called chip.init ports)
    else if status == ic_status_disabled
    then called chip.enable ports
    else ports

-- The controller `c` of `t` is in use and has come up, and the nesting is that of `s`.
record IsOn (s t : Irqchip) (c : ℕ) : Type 0 where
  pub chosen : t.interrupt_controller ≡ some c
  pub enabled : (t.chips c).status ≡ ic_status_enabled
  pub nesting : t.cpu ≡ s.cpu
  pub written : t.ports ≡ brought_up (s.chips c).status (s.chips c) s.ports

enable_again :
    (s : Irqchip) (c : ℕ)
    → s.interrupt_controller ≡ some c
    → (s.chips c).status ≡ ic_status_enabled
    → (interrupt_controller_enable s).0 ≡ s
unfolding interrupt_controller_enable
enable_again s c e q = ap (λ t. t.0) (guarded-some s c _ _ e) ∙ rw q refl

enable-IsOn :
    (s : Irqchip) (c : ℕ)
    → s.interrupt_controller ≡ some c
    → ((s.chips c).status ≡ ic_status_disabled) ⊎ ((s.chips c).status ≡ ic_status_enabled)
    → IsOn s (interrupt_controller_enable s).0 c
enable-IsOn s c e (inl q) =
    rw (interrupt_controller_enable_lem s c e q)
      (record { chosen = e; enabled = rw (==_refl c) refl; nesting = refl; written = rw q refl })
enable-IsOn s c e (inr q) =
    rw (enable_again s c e q)
      (record { chosen = e; enabled = q; nesting = refl; written = rw q refl })

other_status :
    (v : ℕ)
    → v ≤ ic_status_enabled
    → (v == ic_status_uninitialized) ≡ false
    → (v ≡ ic_status_disabled) ⊎ (v ≡ ic_status_enabled)
other_status v le h = elim (ℕ_discrete v ic_status_disabled) [
  | yes e ↦ inl e
  | no ne ↦ inr (ground (arith, h, ne))
]

start-IsOn :
    (s : Irqchip) (c : ℕ)
    → s.interrupt_controller ≡ some c
    → (s.chips c).status ≤ ic_status_enabled
    → IsOn (record s { cpu = interrupt_enable s.cpu }) (start s c) c
start-IsOn s c e le = elim (Bool-cases ((s.chips c).status == ic_status_uninitialized)) [
  | inl q ↦
      let ready =
        with_status (record s { ports = called (s.chips c).init s.ports }) c ic_status_disabled in
      let on = enable-IsOn ready c e (inl (status_set s c ic_status_disabled)) in
      rw q (record {
        chosen = on.chosen;
        enabled = on.enabled;
        nesting = ap interrupt_enable on.nesting;
        written = on.written ∙ rw (==_refl c, q) refl;
      })
  | inr q ↦
      let on = enable-IsOn s c e (other_status (s.chips c).status le q) in
      rw q (record {
        chosen = on.chosen;
        enabled = on.enabled;
        nesting = ap interrupt_enable on.nesting;
        written = on.written;
      })
]

-- What is left of `s` after interrupts have been turned off and the controller has been disabled.
record IsOff (s off : Irqchip) : Type 0 where
  pub links : off.links ≡ s.links
  pub head : off.interrupt_controllers ≡ s.interrupt_controllers
  pub nesting : off.cpu ≡ interrupt_disable s.cpu
  pub same_names :
      (controller : ℕ) (cs : List ℕ)
      → first_with off.chips controller cs ≡ first_with s.chips controller cs
  pub known :
      (c : ℕ) → (s.chips c).status ≤ ic_status_enabled → (off.chips c).status ≤ ic_status_enabled

-- With interrupts off, and the controller in use disabled.
abbrev pub turned_off : Irqchip → Irqchip
turned_off s = (interrupt_controller_disable (record s { cpu = interrupt_disable s.cpu })).0

turned_off-IsOff : (s : Irqchip) → IsOff s (turned_off s)
turned_off-IsOff s = elim (disable_cases (record s { cpu = interrupt_disable s.cpu })) [
  | inl e ↦ rw e (record {
    links = refl;
    head = refl;
    nesting = refl;
    same_names = λ controller cs. refl;
    known = λ c le. le;
  })
  | inr (d, e) ↦ rw e (record {
    links = refl;
    head = refl;
    nesting = refl;
    same_names = λ controller cs. first_with-with_status s d ic_status_disabled controller cs;
    known = λ c le. elim (Bool-cases (d == c)) [ inl q ↦ rw q (omega arith) | inr q ↦ rw q le ];
  })
]

module _ (fuel : ℕ) (s : Irqchip) (controller : ℕ) (cs : List ℕ)
    (ring : IsRing s.links s.interrupt_controllers cs) (enough : length cs < fuel) where
  found :
      find_interrupt_controller fuel (turned_off s) controller
      ≡ some (first_with s.chips controller cs)
  found =
      let off = turned_off-IsOff s in
      find_interrupt_controller_lem fuel (turned_off s) controller cs
        (rw (off.links, off.head) ring) enough
      ∙ ap some (off.same_names controller cs)

  -- If a registered controller has the identifier and a status of the header, and interrupts are taken
  -- exactly at depth 0, and the depth is below 2^32 - 1, then the first such controller is in use and enabled,
  -- the call returns 0, and interrupts are nested as before. After the old controller has been disabled,
  -- the `init` of the new one is called if it has not been set up, then its `enable` unless it is
  -- enabled, and nothing else is written to the ports.
  pub interrupt_controller_set-IsOn :
      (c : ℕ)
      → first_with s.chips controller cs ≡ some c
      → (s.chips c).status ≤ ic_status_enabled
      → IsMasked s.cpu
      → s.cpu.depth + 1 < 2 ^ 32
      → (t : Irqchip) × (interrupt_controller_set fuel s controller ≡ some (t, 0))
        × (t.interrupt_controller ≡ some c)
        × ((t.chips c).status ≡ ic_status_enabled)
        × (t.cpu ≡ s.cpu)
        × (t.ports
            ≡ brought_up
                ((turned_off s).chips c).status
                ((turned_off s).chips c)
                (turned_off s).ports)
  unfolding interrupt_controller_set
  interrupt_controller_set-IsOn c first known masked small =
      let off = turned_off-IsOff s in
      let chosen = record (turned_off s) { interrupt_controller = some c } in
      let on = start-IsOn chosen c refl (off.known c known) in
      (
        start chosen c,
        rw (found, first) refl,
        on.chosen,
        on.enabled,
        on.nesting ∙ ap interrupt_enable off.nesting ∙ enable-disable s.cpu small masked,
        on.written,
      )

  -- If no registered controller has the identifier, the call returns 1, the old controller is gone, and
  -- interrupts stay turned off: the depth is one more than before.
  pub interrupt_controller_set_lost :
      first_with s.chips controller cs ≡ none
      → (t : Irqchip) × (interrupt_controller_set fuel s controller ≡ some (t, 1))
        × (t.interrupt_controller ≡ none)
        × (t.cpu ≡ interrupt_disable s.cpu)
  unfolding interrupt_controller_set
  interrupt_controller_set_lost first = (
    record (turned_off s) { interrupt_controller = none },
    rw (found, first) refl,
    refl,
    (turned_off-IsOff s).nesting,
  )
