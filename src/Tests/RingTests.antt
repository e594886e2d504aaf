-- ===== src/Tests/RingTests.antt =====
-- include/lib/list.h on a list at 100 with the elements 20 and 10.
use mint.Base.{[], ◌∷◌, some, ◌≡◌, refl, arith}
use mint.Ring.{
  Links, list_runtime_init, list_add, list_add_tail, list_delete, list_for_each, members,
}
use mint.Ring.Chain.{IsRing, members_lem}
use mint.Ring.Tail.{list_add_tail-IsRing}
use mint.Ring.Add.{list_runtime_init-IsRing, list_add-IsRing}

abbrev pub blank : Links
blank = record { next = λ _. 0; prev = λ _. 0 }

pub one_element-IsRing : IsRing (list_add (list_runtime_init blank 100) 100 10) 100 (10 ∷ [])
one_element-IsRing =
    list_add-IsRing (list_runtime_init blank 100) 100 10 [] (omega arith) tt
      (list_runtime_init-IsRing blank 100)

abbrev pub two_elements : Links
two_elements = list_add (list_add (list_runtime_init blank 100) 100 10) 100 20

pub two_elements-IsRing : IsRing two_elements 100 (20 ∷ 10 ∷ [])
two_elements-IsRing =
    list_add-IsRing (list_add (list_runtime_init blank 100) 100 10) 100 20 (10 ∷ []) (omega arith)
      (omega arith, tt) one_element-IsRing

list_add-IsRing_example : IsRing two_elements 100 (20 ∷ 10 ∷ [])
list_add-IsRing_example =
    list_add-IsRing (list_add (list_runtime_init blank 100) 100 10) 100 20 (10 ∷ []) (omega arith)
      (omega arith, tt) one_element-IsRing

list_runtime_init-IsRing_example : IsRing (list_runtime_init blank 100) 100 []
list_runtime_init-IsRing_example = list_runtime_init-IsRing blank 100

members_lem_example : members 2 (list_add (list_runtime_init blank 100) 100 10) 100 ≡ some (10 ∷ [])
members_lem_example =
    members_lem 2 (list_add (list_runtime_init blank 100) 100 10) 100 (10 ∷ []) one_element-IsRing
      (omega arith)

tail_and_delete_runs :
    (members 5 (list_add_tail two_elements 100 30) 100 ≡ some (20 ∷ 10 ∷ 30 ∷ []))
    × (members 5 (list_delete two_elements 20) 100 ≡ some (10 ∷ []))
    × (members 5 (list_delete two_elements 10) 100 ≡ some (20 ∷ []))
unfolding list_runtime_init list_add list_add_tail list_delete list_for_each
tail_and_delete_runs = (refl, refl, refl)

list_add_tail-IsRing_example : IsRing (list_add_tail two_elements 100 30) 100 (20 ∷ 10 ∷ 30 ∷ [])
list_add_tail-IsRing_example =
    list_add_tail-IsRing two_elements 100 30 (20 ∷ 10 ∷ []) (omega arith)
      (omega arith, (omega arith, tt)) two_elements-IsRing
