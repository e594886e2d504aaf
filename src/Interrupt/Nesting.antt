-- ===== src/Interrupt/Nesting.antt =====
-- Nested pairs of `interrupt_disable` and `interrupt_enable` of cpu/interrupt.c.
use mathlib.Core.Path.{ap₂}
use mint.Base.{
  ℕ, suc, ◌+◌, ◌^◌, ◌<◌, Bool, List, [], ◌∷◌, ◌++◌, length, length-append, ◌≡◌, refl, ◌∙◌, ap,
  arith, ◌==◌,
}
use mint.Interrupt.{Mask, interrupt_disable, interrupt_enable}

-- One of the two calls.
pub data Call : Type 0 where
  disable : Call
  enable : Call

abbrev pub call : Call → Mask → Mask
call disable m = interrupt_disable m
call enable m = interrupt_enable m

-- The calls one after the other.
pub run_calls : List Call → Mask → Mask
run_calls [] m = m
run_calls (c ∷ cs) m = run_calls cs (call c m)

-- Every `disable` has its `enable`.
pub data IsBalanced : List Call → Type 0 where
  done : IsBalanced []
  pair :
      {inner rest : List Call}
      → IsBalanced inner
      → IsBalanced rest
      → IsBalanced (disable ∷ inner ++ enable ∷ rest)

-- Interrupts are taken exactly at depth 0.
pub record IsMasked (m : Mask) : Type 0 where
  pub exact : m.enabled ≡ (m.depth == 0)

run_calls-append :
    (cs ds : List Call) (m : Mask) → run_calls (cs ++ ds) m ≡ run_calls ds (run_calls cs m)
unfolding run_calls
run_calls-append [] ds m = refl
run_calls-append (c ∷ cs) ds m = run_calls-append cs ds (call c m)

pub interrupt_disable-IsMasked :
    (m : Mask) → m.depth + 1 < 2 ^ 32 → IsMasked m → IsMasked (interrupt_disable m)
unfolding interrupt_disable
interrupt_disable-IsMasked m h v = record { exact = ground (arith, v.exact) }

disable_depth : (m : Mask) → m.depth + 1 < 2 ^ 32 → (interrupt_disable m).depth ≡ m.depth + 1
unfolding interrupt_disable
disable_depth m h = omega arith

-- An `enable` undoes a `disable`.
pub enable-disable :
    (m : Mask) → m.depth + 1 < 2 ^ 32 → IsMasked m → interrupt_enable (interrupt_disable m) ≡ m
unfolding interrupt_disable interrupt_enable
enable-disable m h v =
    ap₂ (λ (d : ℕ) (e : Bool). record { depth = d; enabled = e }) (omega arith)
      (ground (arith, v.exact))

-- From a state in which interrupts are taken exactly at depth 0, a sequence of calls in which every
-- `disable` has its `enable` leaves the depth and the processor as they were, unless it could be so
-- long that the depth wraps.
pub run_calls-IsBalanced :
    (cs : List Call) (m : Mask)
    → IsBalanced cs
    → IsMasked m
    → m.depth + length cs < 2 ^ 32
    → run_calls cs m ≡ m
unfolding run_calls
run_calls-IsBalanced _ m done v h = refl
run_calls-IsBalanced _ m (pair {inner} {rest} p q) v h =
    let total : length (inner ++ enable ∷ rest) ≡ length inner + suc (length rest) =
      length-append inner (enable ∷ rest) in
    let v' = interrupt_disable-IsMasked m (omega (arith, total)) v in
    run_calls-append inner (enable ∷ rest) (interrupt_disable m)
    ∙ ap (λ t. run_calls rest (interrupt_enable t))
        (run_calls-IsBalanced inner (interrupt_disable m) p v'
          (omega (arith, total, disable_depth m (omega (arith, total)))))
    ∙ ap (run_calls rest) (enable-disable m (omega (arith, total)) v)
    ∙ run_calls-IsBalanced rest m q v (omega (arith, total))
