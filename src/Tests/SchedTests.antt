-- ===== src/Tests/SchedTests.antt =====
-- tm/sched.c with two threads.
use mint.Base.{[], ◌∷◌, some, none, ◌>>=◌, ◌≡◌, refl}
use mint.Ring.{Links, list_runtime_init, list_add, list_empty}
use mint.Sched.{Sched, runqueue_insert, runqueue_next, sched_add, sched_tick}
use mint.Sched.Turns.{sched_tick-turn}
use mint.Tests.RingTests.{two_elements, two_elements-IsRing}

abbrev blank : Links
blank = record { next = λ _. 0; prev = λ _. 0 }

-- The threads 20 and 10 are runnable, and 10 is the current one.
abbrev busy : Sched
busy = record {
  links = two_elements;
  rq = record { current = some 10; idle = some 50; runnable = 100; num_threads = 2 };
  current_thread = some 10;
}

sched_tick-turn_example : (s' : Sched) × (sched_tick busy ≡ some s') × (s'.current_thread ≡ some 20)
sched_tick-turn_example = sched_tick-turn busy 10 (20 ∷ []) [] two_elements-IsRing refl

-- From an empty run queue: a tick, a new thread, and another tick.
lost_run :
    let idle : Sched = record {
      links = list_runtime_init blank 100;
      rq = record { current = none; idle = some 50; runnable = 100; num_threads = 0 };
      current_thread = none;
    } in
    (sched_tick idle >>= λ s. sched_tick (sched_add s 10) >>= λ s'. s'.current_thread) ≡ some 0
unfolding sched_tick sched_add runqueue_insert runqueue_next list_empty list_runtime_init list_add
lost_run = refl
