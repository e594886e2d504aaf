-- ===== src/Thread/Stack.antt =====
-- Where `kthread_create` stores the return address.
use mint.Base.{ℕ, ◌+◌, ◌*◌, ◌-◌, ◌≡◌, refl, arith, ==_refl}
use mint.Thread.{Machine, arch_kthread_setup_registers, kthread_create}

-- A new kernel thread starts at `fn` with a stack pointer that is behind its stack of 4096 bytes, by
-- seven times as much less 8, and the return address is stored there.
pub kthread_create_past :
    (exit : ℕ) (s : Machine) (kernel_process fn kthread stack : ℕ)
    → let s' = kthread_create exit s kernel_process fn kthread stack in
      let rsp = (s'.threads kthread).registers.rsp in
      ((s'.threads kthread).registers.rip ≡ fn)
      × (rsp ≡ stack + 0x1000 + (7 * 0x1000 - 8))
      × (s'.words rsp ≡ exit)
unfolding kthread_create arch_kthread_setup_registers
kthread_create_past exit s kernel_process fn kthread stack = (
  rw (==_refl kthread) refl,
  rw (==_refl kthread) (omega arith),
  rw (==_refl kthread, ==_refl (stack + 0x8000 - 8)) refl,
)
