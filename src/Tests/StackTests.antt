-- ===== src/Tests/StackTests.antt =====
-- lib/stack.c: two stacks in one memory.
use mint.Base.{◌≡◌, refl, [], ◌∷◌, arith}
use mint.Stack.{Ram, Stack, stack_push, stack_pop}
use mint.Stack.Links.{IsStack, stack_push-IsStack, stack_push-other, stack_pop-IsStack}

abbrev blank : Ram
blank = record { word = λ _. 0; window = 0 }

-- The stack of the page 0x1000 alone, and the stack of the page 0x5000 alone.
abbrev low : Stack
low = record { size = 1; top = 0x1000 }

abbrev other : Stack
other = record { size = 1; top = 0x5000 }

-- Pages come back in the reverse order, and then 0.
pops_in_reverse :
    let (one, ram₁) = stack_push low 0x2000 blank in
    let (two, ram₂) = stack_push one 0x3000 ram₁ in
    let (a, s₁, ram₃) = stack_pop two ram₂ in
    let (b, s₂, ram₄) = stack_pop s₁ ram₃ in
    let (c, s₃, ram₅) = stack_pop s₂ ram₄ in
    let (d, s₄, ram₆) = stack_pop s₃ ram₅ in a ∷ b ∷ c ∷ d ∷ [] ≡ 0x3000 ∷ 0x2000 ∷ 0x1000 ∷ 0 ∷ []
unfolding stack_pop stack_push
pops_in_reverse = refl

low-IsStack : IsStack blank low (0x1000 ∷ [])
low-IsStack = omega arith

other-IsStack : IsStack blank other (0x5000 ∷ [])
other-IsStack = omega arith

stack_push-IsStack_example :
    IsStack (stack_push low 0x2000 blank).1 (stack_push low 0x2000 blank).0 (0x2000 ∷ 0x1000 ∷ [])
stack_push-IsStack_example =
    stack_push-IsStack blank low 0x2000 (0x1000 ∷ []) (omega arith) low-IsStack

stack_push-other_example : IsStack (stack_push low 0x2000 blank).1 other (0x5000 ∷ [])
stack_push-other_example =
    stack_push-other blank low other 0x2000 (0x5000 ∷ []) (omega arith) other-IsStack

stack_pop-IsStack_example :
    let (address, stack', ram') = stack_pop low blank in
    (address ≡ 0x1000) × IsStack ram' stack' [] × (ram'.word ≡ blank.word)
stack_pop-IsStack_example = stack_pop-IsStack blank low 0x1000 [] low-IsStack
