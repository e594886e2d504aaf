-- ===== src/Tests/InterruptTests.antt =====
-- cpu/interrupt.c: nested calls, and the handlers 10 and 20 of the interrupt 3.
use mint.Base.{true, [], ◌∷◌, some, ◌≡◌, refl, arith}
use mint.Interrupt.{
  Mask, Handlers, interrupt_handler_register, interrupt_handler_unregister, for_each, dispatched,
}
use mint.Interrupt.Nesting.{disable, enable, done, pair, run_calls, run_calls-IsBalanced}
use mint.Interrupt.Remove.{unregister_first_lost}

abbrev running : Mask
running = record { depth = 0; enabled = true }

run_calls-IsBalanced_example :
    run_calls (disable ∷ disable ∷ enable ∷ enable ∷ []) running ≡ running
run_calls-IsBalanced_example =
    run_calls-IsBalanced (disable ∷ disable ∷ enable ∷ enable ∷ []) running
      (pair {inner = disable ∷ enable ∷ []} {rest = []} (pair {inner = []} {rest = []} done done)
        done)
      (record { exact = refl }) (omega arith)

abbrev none_registered : Handlers
none_registered = record { links = record { next = λ _. 0; prev = λ _. 0 }; heads = λ _. 0 }

abbrev two_handlers : Handlers
two_handlers = interrupt_handler_register (interrupt_handler_register none_registered 3 10) 3 20

handlers_run :
    (dispatched 5 two_handlers 3 ≡ some (10 ∷ 20 ∷ []))
    × (dispatched 5 two_handlers 4 ≡ some [])
    × (dispatched 5 (interrupt_handler_unregister two_handlers 3 20) 3 ≡ some (10 ∷ []))
unfolding interrupt_handler_register interrupt_handler_unregister for_each
handlers_run = (refl, refl, refl)

unregister_first_lost_example :
    dispatched 5 (interrupt_handler_unregister two_handlers 3 10) 3 ≡ some (10 ∷ [])
unfolding interrupt_handler_register
unregister_first_lost_example = unregister_first_lost 3 two_handlers 3 (omega arith) (omega arith)
