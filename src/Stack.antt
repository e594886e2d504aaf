-- ===== src/Stack.antt =====
-- lib/stack.c and include/lib/stack.h: a stack of physical pages that is linked through the pages
-- themselves. Its functions reach a page through one window, the virtual page `phys_page_virt`.
pub mod Links
use mint.Base.{ℕ, ◌+◌, ◌-◌, ◌/◌, ◌%◌, ◌^◌, ◌==◌, if◌then◌else◌}

-- Physical memory as these functions use it: the first word of each page frame, and the frame
-- that the page table entry of `phys_page_virt` names.
pub record Ram : Type 0 where
  pub word : ℕ → ℕ
  pub window : ℕ

-- The frame of a page table entry: `physical / 0x1000` in a field of 40 bits.
abbrev pub frame : ℕ → ℕ
frame physical = physical / 0x1000 % 2 ^ 40

-- `virtual_map` of the one page `phys_page_virt`. The tables above it are not part of this state.
unfoldable pub stack_map : Ram → ℕ → Ram
stack_map ram physical = record ram { window = frame physical }

-- `*phys_page`, read and written.
abbrev pub load : Ram → ℕ
load ram = ram.word ram.window

abbrev pub store : Ram → ℕ → Ram
store ram value = record ram { word = λ f. if ram.window == f then value else ram.word f }

-- Every entry takes a frame of its own, so `size` stays below 2 ^ 40 and does not wrap.
pub record Stack : Type 0 where
  pub size : ℕ
  pub top : ℕ

unfoldable pub stack_init : Stack
stack_init = record { size = 0; top = 0 }

unfoldable pub stack_push : Stack → ℕ → Ram → Stack × Ram
unfolding stack_map
stack_push stack address ram =
    (record { size = stack.size + 1; top = address }, store (stack_map ram address) stack.top)

-- The value that is returned, the stack and the memory after the call.
unfoldable pub stack_pop : Stack → Ram → ℕ × Stack × Ram
unfolding stack_map
stack_pop stack ram =
    if stack.size == 0
    then (0, stack, ram)
    else let mapped = stack_map ram stack.top in
      (stack.top, record { size = stack.size - 1; top = load mapped }, mapped)
