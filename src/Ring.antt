-- ===== src/Ring.antt =====
-- include/lib/list.h: circular lists that are linked through elements inside other structures. An
-- element is its address, 0 is `NULL`, and the memory is what every element points to.
pub mod Chain
pub mod Add
pub mod Tail
use mint.Base.{ℕ, zero, suc, List, [], ◌∷◌, Bool, Option, none, some, ◌==◌, if◌then◌else◌}

-- The `struct list_element` at every address.
pub record Links : Type 0 where
  pub next : ℕ → ℕ
  pub prev : ℕ → ℕ

abbrev pub set_next : Links → ℕ → ℕ → Links
set_next links element to = record links { next = λ x. if element == x then to else links.next x }

abbrev pub set_prev : Links → ℕ → ℕ → Links
set_prev links element to = record links { prev = λ x. if element == x then to else links.prev x }

unfoldable pub list_runtime_init : Links → ℕ → Links
list_runtime_init links list = set_prev (set_next links list list) list list

unfoldable pub list_add : Links → ℕ → ℕ → Links
list_add links list element =
    let l₁ = set_next links element (links.next list) in
    let l₂ = set_prev l₁ element list in
    let l₃ = set_prev l₂ (l₂.next list) element in set_next l₃ list element

unfoldable pub list_add_tail : Links → ℕ → ℕ → Links
list_add_tail links list element =
    let l₁ = set_next links element list in
    let l₂ = set_prev l₁ element (l₁.prev list) in
    let l₃ = set_next l₂ (l₂.prev list) element in set_prev l₃ list element

unfoldable pub list_delete : Links → ℕ → Links
list_delete links element =
    let l₁ = set_prev links (links.next element) (links.prev element) in
    let l₂ = set_next l₁ (l₁.prev element) (l₁.next element) in
    set_prev (set_next l₂ element 0) element 0

unfoldable pub list_empty : Links → ℕ → Bool
list_empty links list = links.next list == list

-- `list_for_each`, on fuel: the elements that the loop visits from `pos` on.
unfoldable pub list_for_each : ℕ → Links → ℕ → ℕ → Option (List ℕ)
list_for_each zero links list pos = none
list_for_each (suc fuel) links list pos =
    let rest = list_for_each fuel links list (links.next pos) in
    if pos == list then some [] else elim rest [ none ↦ none | some visited ↦ some (pos ∷ visited) ]

-- `list_for_each(list, member, pos)`.
abbrev pub members : ℕ → Links → ℕ → Option (List ℕ)
members fuel links list = list_for_each fuel links list (links.next list)
