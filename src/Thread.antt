-- ===== src/Thread.antt =====
-- tm/thread.c, tm/process.c and arch/x86_64/tm/thread.c: threads, the threads of a process, and the
-- switch between threads. A thread goes by the address of its `process_list`, and a process by that of
-- its `threads`, from which `containerof` is a constant distance away. 0 is `NULL`.
pub mod Switch
pub mod Stack
use mint.Base.{ℕ, ◌+◌, ◌*◌, ◌-◌, ◌%◌, ◌^◌, Option, none, some, ◌>>=◌, ◌==◌, if◌then◌else◌}
use mint.Ring.{Links, list_runtime_init, list_add, list_delete}

-- `struct registers`.
pub record Registers : Type 0 where
  pub r15 : ℕ
  pub r14 : ℕ
  pub r13 : ℕ
  pub r12 : ℕ
  pub r11 : ℕ
  pub r10 : ℕ
  pub r9 : ℕ
  pub r8 : ℕ
  pub rsi : ℕ
  pub rdi : ℕ
  pub rbp : ℕ
  pub rdx : ℕ
  pub rcx : ℕ
  pub rbx : ℕ
  pub rax : ℕ
  pub rip : ℕ
  pub rsp : ℕ

-- `struct interrupt_ctx`, the registers that both structures have put together.
pub record InterruptCtx : Type 0 where
  pub registers : Registers
  pub int_no : ℕ
  pub err_code : ℕ
  pub cs : ℕ
  pub rflags : ℕ
  pub ss : ℕ

-- `struct thread`, without its list elements.
pub record Thread : Type 0 where
  pub tid : ℕ
  pub process : ℕ
  pub registers : Registers
  pub kernel_stack : ℕ

-- The list elements, the thread at every address and the `physical_base` of the process at every
-- address, `next_tid` as its 32 bits, `current_thread`, the stack in the TSS, CR3, and the word at
-- every address.
pub record Machine : Type 0 where
  pub links : Links
  pub threads : ℕ → Thread
  pub physical_base : ℕ → ℕ
  pub next_tid : ℕ
  pub current_thread : ℕ
  pub tss_stack : ℕ
  pub cr3 : ℕ
  pub words : ℕ → ℕ

abbrev pub with_thread : Machine → ℕ → Thread → Machine
with_thread s thread t = record s { threads = λ x. if thread == x then t else s.threads x }

-- What 15 of the fields hold in `from`, and the others in `to`: both `arch_save_context` and
-- `arch_load_context` copy these.
abbrev pub copy_context : Registers → Registers → Registers
copy_context from to = record to {
  rax = from.rax;
  rbx = from.rbx;
  rcx = from.rcx;
  rdx = from.rdx;
  rdi = from.rdi;
  rsi = from.rsi;
  rsp = from.rsp;
  rbp = from.rbp;
  r8 = from.r8;
  r9 = from.r9;
  r10 = from.r10;
  r11 = from.r11;
  r12 = from.r12;
  r13 = from.r13;
  rip = from.rip;
}

unfoldable pub arch_save_context : Machine → InterruptCtx → ℕ → Machine
arch_save_context s ctx thread =
    let t = s.threads thread in
    with_thread s thread (record t { registers = copy_context ctx.registers t.registers })

unfoldable pub arch_load_context : Machine → InterruptCtx → ℕ → InterruptCtx
arch_load_context s ctx thread = record ctx {
  registers = copy_context (s.threads thread).registers ctx.registers;
}

-- `none` is an access through the `NULL` process of the next thread.
unfoldable pub arch_thread_switch : Machine → InterruptCtx → ℕ → ℕ → Option (Machine × InterruptCtx)
arch_thread_switch s ctx current next =
    let saved = if current == 0 then s else arch_save_context s ctx current in
    let process = (saved.threads next).process in
    let pml4 = saved.physical_base process in
    if process == 0
    then none
    else if pml4 == 0
    then some (saved, ctx)
    else some (record saved { cr3 = pml4 }, arch_load_context saved ctx next)

unfoldable pub thread_switch : Machine → InterruptCtx → ℕ → ℕ → Option (Machine × InterruptCtx)
thread_switch s ctx current next =
    arch_thread_switch
      (record s { current_thread = next; tss_stack = (s.threads next).kernel_stack }) ctx current
      next

unfoldable pub thread_get_available_tid : Machine → ℕ × Machine
thread_get_available_tid s = (s.next_tid, record s { next_tid = (s.next_tid + 1) % 2 ^ 32 })

abbrev pub no_registers : Registers
no_registers = record {
  r15 = 0;
  r14 = 0;
  r13 = 0;
  r12 = 0;
  r11 = 0;
  r10 = 0;
  r9 = 0;
  r8 = 0;
  rsi = 0;
  rdi = 0;
  rbp = 0;
  rdx = 0;
  rcx = 0;
  rbx = 0;
  rax = 0;
  rip = 0;
  rsp = 0;
}

-- In the block that `kzalloc` returns.
unfoldable pub thread_allocate : Machine → ℕ → Machine
thread_allocate s thread =
    let (tid, s') = thread_get_available_tid s in
    with_thread s' thread
      (record { tid = tid; process = 0; registers = no_registers; kernel_stack = 0 })

unfoldable pub process_allocate : Machine → ℕ → Machine
process_allocate s process = record s {
  links = list_runtime_init s.links process;
  physical_base = λ x. if process == x then 0 else s.physical_base x;
}

unfoldable pub process_add_thread : Machine → ℕ → ℕ → Machine
process_add_thread s process thread =
    let t = with_thread s thread (record (s.threads thread) { process = process }) in
    record t { links = list_add t.links process thread }

unfoldable pub process_remove_thread : Machine → ℕ → ℕ → Machine
process_remove_thread s process thread =
    let t = with_thread s thread (record (s.threads thread) { process = 0 }) in
    record t { links = list_delete t.links thread }

-- `stack + stack_size` on a pointer to words of 8 bytes. `exit` is the address of `kthread_exit`.
unfoldable pub arch_kthread_setup_registers : ℕ → Machine → ℕ → ℕ → ℕ → ℕ → Machine
arch_kthread_setup_registers exit s kthread fn stack stack_size =
    let stack_array = stack + 8 * stack_size in
    let t = s.threads kthread in
    let stored = record s { words = λ x. if stack_array - 8 == x then exit else s.words x } in
    with_thread stored kthread (record t {
      registers = record t.registers { rip = fn; rsp = stack_array - 8 };
      kernel_stack = stack + stack_size;
    })

-- With the blocks for the thread and for its stack.
unfoldable pub kthread_create : ℕ → Machine → ℕ → ℕ → ℕ → ℕ → Machine
kthread_create exit s kernel_process fn kthread stack =
    arch_kthread_setup_registers exit
      (process_add_thread (thread_allocate s kthread) kernel_process kthread) kthread fn stack
      0x1000
