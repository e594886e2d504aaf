-- ===== src/Interrupt.antt =====
-- cpu/interrupt.c: the nesting of `interrupt_disable` and `interrupt_enable`, and the handlers of each
-- interrupt, which are linked in a circle without a head of its own. 0 is `NULL`.
pub mod Nesting
pub mod Remove
pub mod Circle
use mint.Base.{
  ℕ, zero, suc, ◌+◌, ◌-◌, ◌%◌, ◌^◌, Bool, true, false, ◌&&◌, List, [], ◌∷◌, Option, none, some,
  ◌==◌, if◌then◌else◌,
}
use mint.Ring.{Links, set_next, set_prev}

-- `interrupt_depth`, an `int` of 32 bits, and whether the processor takes interrupts: that is what
-- `arch_interrupt_disable` and `arch_interrupt_enable` change.
pub record Mask : Type 0 where
  pub depth : ℕ
  pub enabled : Bool

unfoldable pub interrupt_disable : Mask → Mask
interrupt_disable m = record {
  depth = (m.depth + 1) % 2 ^ 32;
  enabled = if m.depth == 0 then false else m.enabled;
}

unfoldable pub interrupt_enable : Mask → Mask
interrupt_enable m = record {
  depth = (m.depth + (2 ^ 32 - 1)) % 2 ^ 32;
  enabled = if m.depth == 1 then true else m.enabled;
}

-- The links of every `struct interrupt_handler`, and `interrupt_handlers`.
pub record Handlers : Type 0 where
  pub links : Links
  pub heads : ℕ → ℕ

abbrev pub with_head : Handlers → Links → ℕ → ℕ → Handlers
with_head h links number head = record {
  links = links;
  heads = λ n. if number == n then head else h.heads n;
}

-- LIST_APPEND
unfoldable pub interrupt_handler_register : Handlers → ℕ → ℕ → Handlers
interrupt_handler_register h number handler =
    let head = h.heads number in
    if head == 0
    then with_head h (set_prev (set_next h.links handler handler) handler handler) number handler
    else (let l₁ = set_next h.links handler head in
        let l₂ = set_prev l₁ handler (l₁.prev head) in
        let l₃ = set_next l₂ (l₂.prev head) handler in
        with_head h (set_prev l₃ head handler) number head)

-- LIST_REMOVE
unfoldable pub interrupt_handler_unregister : Handlers → ℕ → ℕ → Handlers
interrupt_handler_unregister h number handler =
    if (h.heads number == handler) && (h.links.next handler == handler)
    then with_head h h.links number 0
    else (let l₁ = set_prev h.links (h.links.next handler) (h.links.prev handler) in
        let l₂ = set_next l₁ (l₁.prev handler) (l₁.next handler) in
        with_head h (set_prev (set_next l₂ handler handler) handler handler) number
          (h.heads number))

-- LIST_FOR_EACH, on fuel: the handlers that it visits from `element` on.
unfoldable pub for_each : ℕ → Links → ℕ → ℕ → Option (List ℕ)
for_each zero links head element = none
for_each (suc fuel) links head element =
    let next = if links.next element == head then 0 else links.next element in
    let rest = for_each fuel links head next in
    if element == 0 then some [] else elim rest [ none ↦ none | some seen ↦ some (element ∷ seen) ]

-- The handlers that `interrupt_dispatch` calls for an interrupt, those without a function included.
abbrev pub dispatched : ℕ → Handlers → ℕ → Option (List ℕ)
dispatched fuel h number =
    if h.heads number == 0 then some [] else for_each fuel h.links (h.heads number) (h.heads number)
