-- ===== src/Tests/IrqchipTests.antt =====
-- drivers/irqchip/irqchip.c with an Intel 8259 at the address 10.
use mint.Base.{ℕ, true, none, some, [], ◌∷◌, ◌≡◌, refl, arith, ◌==◌, if◌then◌else◌}
use mint.Ring.{list_add, list_runtime_init}
use mint.Interrupt.{interrupt_disable}
use mint.Irqchip.{
  Ports, Irqchip, with_status, interrupt_controller_enable, interrupt_controller_mask,
  interrupt_controller_set,
}
use mint.Irqchip.Pic.{pic_info, mask_intel_8259, enable_intel_8259}
use mint.Irqchip.Find.{interrupt_controller_enable_lem}
use mint.Irqchip.Set.{
  brought_up, turned_off, interrupt_controller_set-IsOn, interrupt_controller_set_lost,
}
use mint.Tests.RingTests.{blank, one_element-IsRing}

-- A port that reads what was written to it last.
abbrev inb : ℕ → Ports → ℕ
inb port [] = 0
inb port ((p, v) ∷ ports) = if p == port then v else inb port ports

abbrev pub chip : Irqchip
chip = record {
  links = list_add (list_runtime_init blank 100) 100 10;
  chips = λ _. pic_info inb;
  interrupt_controllers = 100;
  interrupt_controller = none;
  irq_mask = 0;
  cpu = record { depth = 0; enabled = true };
  ports = [];
}

abbrev disabled : Irqchip
disabled = record (with_status chip 10 1) { interrupt_controller = some 10 }

abbrev pub enabled : Irqchip
enabled = record (with_status chip 10 2) { interrupt_controller = some 10 }

mask_run : (interrupt_controller_mask enabled 9).0.ports ≡ (0xA1, 2) ∷ []
unfolding interrupt_controller_mask mask_intel_8259
mask_run = refl

interrupt_controller_enable_lem_example :
    interrupt_controller_enable disabled
    ≡ (with_status (record disabled { ports = enable_intel_8259 [] }) 10 2, 0)
interrupt_controller_enable_lem_example = interrupt_controller_enable_lem disabled 10 refl refl

interrupt_controller_set-IsOn_example :
    (t : Irqchip) × (interrupt_controller_set 2 chip 1 ≡ some (t, 0))
    × (t.interrupt_controller ≡ some 10)
    × ((t.chips 10).status ≡ 2)
    × (t.cpu ≡ record { depth = 0; enabled = true })
    × (t.ports
        ≡ brought_up
            ((turned_off chip).chips 10).status
            ((turned_off chip).chips 10)
            (turned_off chip).ports)
interrupt_controller_set-IsOn_example =
    interrupt_controller_set-IsOn 2 chip 1 (10 ∷ []) one_element-IsRing (omega arith) 10 refl
      (omega arith) (record { exact = refl }) (omega arith)

interrupt_controller_set_lost_example :
    (t : Irqchip) × (interrupt_controller_set 2 chip 7 ≡ some (t, 1))
    × (t.interrupt_controller ≡ none)
    × (t.cpu ≡ interrupt_disable (record { depth = 0; enabled = true }))
interrupt_controller_set_lost_example =
    interrupt_controller_set_lost 2 chip 7 (10 ∷ []) one_element-IsRing (omega arith) refl
