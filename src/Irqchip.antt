-- ===== src/Irqchip.antt =====
-- drivers/irqchip/irqchip.c: the interrupt controllers and the one in use. A controller goes by the
-- address of its `list`, and `none` is a `NULL` controller or function. Interrupts are below 32.
pub mod Pic
pub mod Find
pub mod Set
use mint.Base.{
  ℕ, zero, suc, ◌+◌, ◌-◌, ◌*◌, ◌^◌, bit_and, bit_or, List, ◌∷◌, Option, none, some, ◌>>=◌, ◌==◌,
  if◌then◌else◌,
}
use mint.Ring.{Links, list_add}
use mint.Interrupt.{Mask, interrupt_disable, interrupt_enable}

-- What has been written to the ports, the last write first.
abbrev pub Ports : Type 0
Ports = List (ℕ × ℕ)

abbrev pub outb : ℕ → ℕ → Ports → Ports
outb port value ports = (port, value) ∷ ports

-- `struct interrupt_controller`, without its name.
pub record InterruptController : Type 0 where
  pub identifier : ℕ
  pub status : ℕ
  pub init : Option (Ports → Ports)
  pub enable : Option (Ports → Ports)
  pub disable : Option (Ports → Ports)
  pub mask : Option (ℕ → Ports → Ports)
  pub unmask : Option (ℕ → Ports → Ports)
  pub ack : Option (ℕ → Ports → Ports)

abbrev pub ic_status_uninitialized : ℕ
ic_status_uninitialized = 0

abbrev pub ic_status_disabled : ℕ
ic_status_disabled = 1

abbrev pub ic_status_enabled : ℕ
ic_status_enabled = 2

-- The controller at every address, the head of `interrupt_controllers` and the other static variables,
-- the nesting of cpu/interrupt.c, and the ports.
pub record Irqchip : Type 0 where
  pub links : Links
  pub chips : ℕ → InterruptController
  pub interrupt_controllers : ℕ
  pub interrupt_controller : Option ℕ
  pub irq_mask : ℕ
  pub cpu : Mask
  pub ports : Ports

abbrev pub with_status : Irqchip → ℕ → ℕ → Irqchip
with_status s controller status = record s {
  chips = λ x. if controller == x then record (s.chips x) { status = status } else s.chips x;
}

-- A call of a function, if there is one.
abbrev pub called : Option (Ports → Ports) → Ports → Ports
called none ports = ports
called (some f) ports = f ports

abbrev pub called_with : Option (ℕ → Ports → Ports) → ℕ → Ports → Ports
called_with none irq ports = ports
called_with (some f) irq ports = f irq ports

-- The loop of `find_interrupt_controller`, on fuel, from `node` on. The inner `none` is `NULL`.
unfoldable pub find_from : ℕ → Irqchip → ℕ → ℕ → Option (Option ℕ)
find_from zero s controller node = none
find_from (suc fuel) s controller node =
    let rest = find_from fuel s controller (s.links.next node) in
    if node == s.interrupt_controllers
    then some none
    else if (s.chips node).identifier == controller
    then some (some node)
    else rest

abbrev pub find_interrupt_controller : ℕ → Irqchip → ℕ → Option (Option ℕ)
find_interrupt_controller fuel s controller =
    find_from fuel s controller (s.links.next s.interrupt_controllers)

-- `if (!interrupt_controller) return 1;`
abbrev pub guarded : Irqchip → Option ℕ → (ℕ → Irqchip × ℕ) → Irqchip × ℕ
guarded s none rest = (s, 1)
guarded s (some c) rest = rest c

-- Every operation returns the new state, and the `int`.
unfoldable pub interrupt_controller_register : Irqchip → ℕ → Irqchip × ℕ
interrupt_controller_register s controller =
    (record s { links = list_add s.links s.interrupt_controllers controller }, 0)

unfoldable pub interrupt_controller_unregister : Irqchip → ℕ → Irqchip × ℕ
interrupt_controller_unregister s controller = (
  record s {
    links = list_add s.links s.interrupt_controllers controller;
    interrupt_controller = elim s.interrupt_controller [
      | none ↦ none
      | some c ↦ if c == controller then none else some c
    ];
  },
  0,
)

unfoldable pub interrupt_controller_mask : Irqchip → ℕ → Irqchip × ℕ
interrupt_controller_mask s irq = guarded s s.interrupt_controller λ c.
    let chip = s.chips c in
    let programmed =
      if chip.status == ic_status_enabled then called_with chip.mask irq s.ports else s.ports in
    (
      if bit_and s.irq_mask (2 ^ irq) == 0
          then record s { irq_mask = bit_or s.irq_mask (2 ^ irq); ports = programmed }
          else s,
      0,
    )

unfoldable pub interrupt_controller_unmask : Irqchip → ℕ → Irqchip × ℕ
interrupt_controller_unmask s irq = guarded s s.interrupt_controller λ c.
    let chip = s.chips c in
    let programmed =
      if chip.status == ic_status_enabled then called_with chip.unmask irq s.ports else s.ports in
    (
      if bit_and s.irq_mask (2 ^ irq) == 0 then s else record s {
        irq_mask = bit_and s.irq_mask (2 ^ 32 - 1 - 2 ^ irq);
        ports = programmed;
      },
      0,
    )

-- The loop of `interrupt_controller_enable`: the number of rounds left, and `i`.
unfoldable pub restore_masks : ℕ → ℕ → Irqchip → Irqchip
restore_masks zero i s = s
restore_masks (suc n) i s = restore_masks n (i + 1) (
    if bit_and s.irq_mask (2 ^ i) == 0
    then (interrupt_controller_unmask s i).0
    else (interrupt_controller_mask s i).0)

unfoldable pub interrupt_controller_enable : Irqchip → Irqchip × ℕ
interrupt_controller_enable s = guarded s s.interrupt_controller λ c.
    let on = record s { ports = called (s.chips c).enable s.ports } in
    if (s.chips c).status == ic_status_disabled
    then (with_status (restore_masks 32 0 on) c ic_status_enabled, 0)
    else (s, 1)

-- It calls the function `enable` too.
unfoldable pub interrupt_controller_disable : Irqchip → Irqchip × ℕ
interrupt_controller_disable s = guarded s s.interrupt_controller λ c.
    let off = record s { ports = called (s.chips c).enable s.ports } in
    if (s.chips c).status == ic_status_enabled
    then (with_status off c ic_status_disabled, 0)
    else (s, 1)

-- `interrupt_controller_set` from `if (interrupt_controller->status == IC_STATUS_UNINITIALIZED)` on.
abbrev pub start : Irqchip → ℕ → Irqchip
start s c =
    let ready = record s { ports = called (s.chips c).init s.ports } in
    let on =
      (interrupt_controller_enable (
        if (s.chips c).status == ic_status_uninitialized
        then with_status ready c ic_status_disabled
        else s)).0 in
    record on { cpu = interrupt_enable on.cpu }

unfoldable pub interrupt_controller_set : ℕ → Irqchip → ℕ → Option (Irqchip × ℕ)
interrupt_controller_set fuel s controller =
    let off = (interrupt_controller_disable (record s { cpu = interrupt_disable s.cpu })).0 in
    find_interrupt_controller fuel off controller >>= λ found.
    let chosen = record off { interrupt_controller = found } in
    elim found [ none ↦ some (chosen, 1) | some c ↦ some (start chosen c, 0) ]

unfoldable pub interrupt_controller_ack : Irqchip → ℕ → Irqchip × ℕ
interrupt_controller_ack s int_no = guarded s s.interrupt_controller λ c.
    if (s.chips c).status == ic_status_enabled
    then elim (s.chips c).ack [
      | none ↦ (s, 1)
      | some ack ↦ (record s { ports = ack int_no s.ports }, 0)
    ]
    else (s, 1)
