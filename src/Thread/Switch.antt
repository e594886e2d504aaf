-- ===== src/Thread/Switch.antt =====
-- A switch from one thread to another and back.
use mint.Base.{ℕ, some, ◌≡◌, ◌≢◌, refl, ◌∙◌, ==_refl, ne→==-false, sym}
use mint.Thread.{
  Machine, InterruptCtx, copy_context, arch_save_context, arch_load_context, arch_thread_switch,
  thread_switch,
}

-- Two threads of processes with an address space.
pub record AreReady (s : Machine) (a b : ℕ) : Type 0 where
  pub valid_a : a ≢ 0
  pub valid_b : b ≢ 0
  pub different : a ≢ b
  pub process_a : (s.threads a).process ≢ 0
  pub process_b : (s.threads b).process ≢ 0
  pub base_a : s.physical_base (s.threads a).process ≢ 0
  pub base_b : s.physical_base (s.threads b).process ≢ 0

-- A switch to a thread that is ready saves the 15 registers and loads those of the next thread.
switched :
    (s : Machine) (ctx : InterruptCtx) (a b : ℕ)
    → AreReady s a b
    → thread_switch s ctx a b
      ≡ some (
        record (arch_save_context s ctx a) {
          current_thread = b;
          tss_stack = (s.threads b).kernel_stack;
          cr3 = s.physical_base (s.threads b).process;
        },
        record ctx { registers = copy_context (s.threads b).registers ctx.registers },
      )
unfolding thread_switch arch_thread_switch arch_save_context arch_load_context
switched s ctx a b r =
    rw
      (
        ne→==-false a 0 r.valid_a,
        ne→==-false a b r.different,
        ne→==-false (s.threads b).process 0 r.process_b,
        ne→==-false (s.physical_base (s.threads b).process) 0 r.base_b,
      )
      refl

saved-AreReady :
    (s : Machine) (ctx : InterruptCtx) (a b stack cr3 : ℕ)
    → AreReady s a b
    → AreReady
        (record (arch_save_context s ctx a) { current_thread = b; tss_stack = stack; cr3 = cr3 })
        b
        a
unfolding arch_save_context
saved-AreReady s ctx a b stack cr3 r =
    let far = ne→==-false a b r.different in
    record {
      valid_a = r.valid_b;
      valid_b = r.valid_a;
      different = λ e. r.different (sym e);
      process_a = rw far r.process_b;
      process_b = rw (==_refl a) r.process_a;
      base_a = rw far r.base_b;
      base_b = rw (==_refl a) r.base_a;
    }

saved_registers :
    (s : Machine) (ctx : InterruptCtx) (a : ℕ)
    → ((arch_save_context s ctx a).threads a).registers
      ≡ copy_context ctx.registers (s.threads a).registers
unfolding arch_save_context
saved_registers s ctx a = rw (==_refl a) refl

-- Between two threads that are ready, a switch and a later switch back both succeed, and the second one
-- gives the first thread the registers of the first switch, but for r14 and r15: these two are what the
-- second thread leaves in them.
pub thread_switch_back :
    (s : Machine) (ctx later : InterruptCtx) (a b : ℕ)
    → AreReady s a b
    → (s₁ : Machine) × (s₂ : Machine) × (ctx₁ : InterruptCtx) × (thread_switch s ctx a b
        ≡ some (s₁, ctx₁))
      × (thread_switch s₁ later b a
          ≡ some (
            s₂,
            record later {
              registers = record ctx.registers {
                r14 = later.registers.r14;
                r15 = later.registers.r15;
              };
            },
          ))
      × (s₂.current_thread ≡ a)
thread_switch_back s ctx later a b r =
    let s₁ = record (arch_save_context s ctx a) {
      current_thread = b;
      tss_stack = (s.threads b).kernel_stack;
      cr3 = s.physical_base (s.threads b).process;
    } in
    let s₂ = record (arch_save_context s₁ later b) {
      current_thread = a;
      tss_stack = (s₁.threads a).kernel_stack;
      cr3 = s₁.physical_base (s₁.threads a).process;
    } in
    let back = switched s₁ later b a (
      saved-AreReady s ctx a b (s.threads b).kernel_stack (s.physical_base (s.threads b).process)
        r) in
    let own : (s₁.threads a).registers ≡ copy_context ctx.registers (s.threads a).registers =
      saved_registers s ctx a in
    (s₁, s₂, _, switched s ctx a b r, back ∙ rw own refl, refl)
