-- ===== src/Stack/Links.antt =====
-- The chain of pages of a stack of lib/stack.c, and stacks that share the memory.
use mint.Base.{ℕ, List, [], ◌∷◌, ◌≡◌, ◌≢◌, refl, false, arith, length, ◌==◌, ne→==-false, ==_refl}
use mint.Stack.{Ram, Stack, frame, stack_map, store, stack_init, stack_push, stack_pop}

-- The chain from the address `top` through the first words runs over `pages` and ends in 0.
abbrev pub Links : (ℕ → ℕ) → ℕ → List ℕ → Type 0
Links word top [] = top ≡ 0
Links word top (page ∷ pages) = (top ≡ page) × Links word (word (frame page)) pages

-- `stack` holds `pages`, the last pushed first.
pub record IsStack (ram : Ram) (stack : Stack) (pages : List ℕ) : Type 0 where
  pub count : stack.size ≡ length pages
  pub links : Links ram.word stack.top pages

-- No page of the list lies in the frame of `address`.
abbrev pub IsFresh : ℕ → List ℕ → Type 0
IsFresh address [] = Unit {0}
IsFresh address (page ∷ pages) = (frame address ≢ frame page) × IsFresh address pages

Links-store :
    (ram : Ram) (address value top : ℕ) (pages : List ℕ)
    → IsFresh address pages
    → Links ram.word top pages
    → Links (store (stack_map ram address) value).word top pages
unfolding stack_map
Links-store ram address value top [] f l = l
Links-store ram address value top (page ∷ pages) f l = (
  l.0,
  rw (ne→==-false (frame address) (frame page) f.0)
      (Links-store ram address value (ram.word (frame page)) pages f.1 l.1),
)

-- The empty stack holds nothing.
pub stack_init-IsStack : (ram : Ram) → IsStack ram stack_init []
unfolding stack_init
stack_init-IsStack ram = record { count = refl; links = refl }

-- Pushed on a stack that holds `pages`, an address whose frame is none of theirs comes on top of them.
pub stack_push-IsStack :
    (ram : Ram) (stack : Stack) (address : ℕ) (pages : List ℕ)
    → IsFresh address pages
    → IsStack ram stack pages
    → IsStack (stack_push stack address ram).1 (stack_push stack address ram).0 (address ∷ pages)
unfolding stack_push
stack_push-IsStack ram stack address pages f s = record {
  count = omega (arith, s.count);
  links = (
    refl,
    rw (==_refl (frame address)) (Links-store ram address stack.top stack.top pages f s.links),
  );
}

-- A push on one stack leaves any other stack with its pages, if the frame pushed is none of theirs.
pub stack_push-other :
    (ram : Ram) (stack other : Stack) (address : ℕ) (pages : List ℕ)
    → IsFresh address pages
    → IsStack ram other pages
    → IsStack (stack_push stack address ram).1 other pages
unfolding stack_push
stack_push-other ram stack other address pages f s = record {
  count = s.count;
  links = Links-store ram address stack.top other.top pages f s.links;
}

-- A pop from a stack that is not empty returns the page on top, leaves a stack of the others, and
-- changes no word of the memory.
pub stack_pop-IsStack :
    (ram : Ram) (stack : Stack) (page : ℕ) (pages : List ℕ)
    → IsStack ram stack (page ∷ pages)
    → let (address, stack', ram') = stack_pop stack ram in
      (address ≡ page) × IsStack ram' stack' pages × (ram'.word ≡ ram.word)
unfolding stack_pop
stack_pop-IsStack ram stack page pages s =
    let holds_some : (stack.size == 0) ≡ false =
      ne→==-false stack.size 0 (omega (arith, s.count)) in
    rw holds_some
      (s.links.0, record { count = omega (arith, s.count); links = rw s.links.0 s.links.1 }, refl)

-- On an empty stack a pop returns 0 and changes nothing.
pub stack_pop-empty :
    (ram : Ram) (stack : Stack) → IsStack ram stack [] → stack_pop stack ram ≡ (0, stack, ram)
unfolding stack_pop
stack_pop-empty ram stack s = rw s.count

-- A stack depends on the words alone, not on what the window shows.
pub IsStack-word :
    (ram ram' : Ram) (stack : Stack) (pages : List ℕ)
    → ram'.word ≡ ram.word
    → IsStack ram stack pages
    → IsStack ram' stack pages
IsStack-word ram ram' stack pages e s = record { count = s.count; links = rw e s.links }
