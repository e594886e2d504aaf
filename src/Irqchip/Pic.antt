-- ===== src/Irqchip/Pic.antt =====
-- drivers/irqchip/intel-8259.c. What `inb` reads after some writes is a parameter.
use mint.Base.{ℕ, ◌+◌, ◌-◌, ◌%◌, ◌^◌, bit_and, bit_or, some, ltb, if◌then◌else◌}
use mint.Irqchip.{Ports, outb, InterruptController, Irqchip, interrupt_controller_register}

abbrev pub pic1_command : ℕ
pic1_command = 0x20

abbrev pub pic2_command : ℕ
pic2_command = 0xA0

abbrev pub pic1_data : ℕ
pic1_data = pic1_command + 1

abbrev pub pic2_data : ℕ
pic2_data = pic2_command + 1

unfoldable pub init_intel_8259 : Ports → Ports
init_intel_8259 ports =
    let p₁ = outb pic2_command 0x11 (outb pic1_command 0x11 ports) in
    let p₂ = outb pic2_data 0x28 (outb pic1_data 0x20 p₁) in
    let p₃ = outb pic2_data 0x02 (outb pic1_data 0x04 p₂) in
    outb pic2_data 0x01 (outb pic1_data 0x01 p₃)

unfoldable pub enable_intel_8259 : Ports → Ports
enable_intel_8259 ports = init_intel_8259 ports

unfoldable pub disable_intel_8259 : Ports → Ports
disable_intel_8259 ports = outb pic2_data 0xFF (outb pic1_data 0xFF ports)

module _ (inb : ℕ → Ports → ℕ) where
  unfoldable pub mask_intel_8259 : ℕ → Ports → Ports
  mask_intel_8259 irq ports =
      let port = if ltb irq 8 then pic1_data else pic2_data in
      let line = if ltb irq 8 then irq else irq - 8 in
      outb port (bit_or (inb port ports) (2 ^ line) % 256) ports

  unfoldable pub unmask_intel_8259 : ℕ → Ports → Ports
  unmask_intel_8259 irq ports =
      let port = if ltb irq 8 then pic1_data else pic2_data in
      let line = if ltb irq 8 then irq else irq - 8 in
      outb port (bit_and (inb port ports) (2 ^ 32 - 1 - 2 ^ line) % 256) ports

unfoldable pub ack_intel_8259 : ℕ → Ports → Ports
ack_intel_8259 int_no ports =
    outb pic1_command 0x20 (if ltb 7 int_no then outb pic2_command 0x20 ports else ports)

abbrev pub pic_info : (ℕ → Ports → ℕ) → InterruptController
pic_info inb = record {
  identifier = 1;
  status = 0;
  init = some init_intel_8259;
  enable = some enable_intel_8259;
  disable = some disable_intel_8259;
  mask = some (mask_intel_8259 inb);
  unmask = some (unmask_intel_8259 inb);
  ack = some ack_intel_8259;
}

-- With `pic_info` at the address `controller`.
abbrev pub register_intel_8259 : Irqchip → ℕ → Irqchip × ℕ
register_intel_8259 s controller = interrupt_controller_register s controller
