-- ===== src/Tests/ThreadTests.antt =====
-- Threads at 10 and 20 of a process at 100 with its tables at 4096.
use mint.Base.{ℕ, ◌+◌, ◌*◌, ◌-◌, some, ◌≡◌, arith}
use mint.Thread.{InterruptCtx, Machine, no_registers, thread_switch, kthread_create}
use mint.Thread.Switch.{thread_switch_back}
use mint.Thread.Stack.{kthread_create_past}
use mint.Tests.RingTests.{blank}

abbrev machine : Machine
machine = record {
  links = blank;
  threads = λ x. record { tid = x; process = 100; registers = no_registers; kernel_stack = 50 };
  physical_base = λ _. 4096;
  next_tid = 3;
  current_thread = 10;
  tss_stack = 50;
  cr3 = 4096;
  words = λ _. 0;
}

abbrev ctx : ℕ → InterruptCtx
ctx n = record {
  registers = record no_registers { rax = n; r15 = n + 1 };
  int_no = 32;
  err_code = 0;
  cs = 8;
  rflags = 0;
  ss = 16;
}

-- The first thread gets its 5 back, and the other one's 8.
thread_switch_back_example :
    (s₁ : Machine) × (s₂ : Machine) × (ctx₁ : InterruptCtx) × (thread_switch machine (ctx 5) 10 20
      ≡ some (s₁, ctx₁))
    × (thread_switch s₁ (ctx 7) 20 10
        ≡ some (s₂, record (ctx 7) { registers = record no_registers { rax = 5; r15 = 8 } }))
    × (s₂.current_thread ≡ 10)
thread_switch_back_example = thread_switch_back machine (ctx 5) (ctx 7) 10 20 (record {
  valid_a = omega arith;
  valid_b = omega arith;
  different = omega arith;
  process_a = omega arith;
  process_b = omega arith;
  base_a = omega arith;
  base_b = omega arith;
})

kthread_create_past_example :
    let s' = kthread_create 77 machine 100 66 30 8192 in
    let rsp = (s'.threads 30).registers.rsp in
    ((s'.threads 30).registers.rip ≡ 66)
    × (rsp ≡ 8192 + 0x1000 + (7 * 0x1000 - 8))
    × (s'.words rsp ≡ 77)
kthread_create_past_example = kthread_create_past 77 machine 100 66 30 8192
