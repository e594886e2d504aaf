-- ===== src/Sched.antt =====
-- tm/sched.c: the run queue. A thread goes by the address of its `runqueue_list`, from which
-- `containerof` is a constant distance away, and `none` is a `NULL` thread.
pub mod Turns
use mint.Base.{ℕ, ◌+◌, ◌-◌, ◌^◌, Option, none, some, ◌>>=◌, ◌==◌, if◌then◌else◌}
use mint.Math.{u64}
use mint.Ring.{Links, list_add, list_delete, list_empty}

-- `struct runqueue`, with the address of its `runnable`.
pub record Runqueue : Type 0 where
  pub current : Option ℕ
  pub idle : Option ℕ
  pub runnable : ℕ
  pub num_threads : ℕ

unfoldable pub runqueue_insert : Links → Runqueue → ℕ → Links × Runqueue
runqueue_insert links rq thread =
    (list_add links rq.runnable thread, record rq { num_threads = u64 (rq.num_threads + 1) })

-- `thread == pointer`, for a thread that is not `NULL`. The value if so, and else the pointer.
abbrev pub cleared : Option ℕ → ℕ → Option ℕ
cleared none thread = none
cleared (some t) thread = if t == thread then none else some t

unfoldable pub runqueue_remove : Links → Runqueue → ℕ → Links × Runqueue
runqueue_remove links rq thread = (
  list_delete links thread,
  record rq {
    current = cleared rq.current thread;
    num_threads = u64 (rq.num_threads + (2 ^ 64 - 1));
  },
)

-- `list_next_entry`, once more if that is the head of the list.
abbrev pub next_turn : Links → ℕ → ℕ → ℕ
next_turn links list thread =
    if links.next thread == list then links.next (links.next thread) else links.next thread

-- The run queue after the call. Its `current` is what the call returns.
unfoldable pub runqueue_next : Links → Runqueue → Runqueue
runqueue_next links rq =
    if list_empty links rq.runnable then record rq { current = rq.idle } else record rq {
      current = elim rq.current [
        | none ↦ some (links.next rq.runnable)
        | some thread ↦ some (next_turn links rq.runnable thread)
      ];
    }

-- The run queue `rq`, the lists in memory and `current_thread`.
pub record Sched : Type 0 where
  pub links : Links
  pub rq : Runqueue
  pub current_thread : Option ℕ

unfoldable pub sched_add : Sched → ℕ → Sched
sched_add s thread =
    let (links, rq) = runqueue_insert s.links s.rq thread in record s { links = links; rq = rq }

unfoldable pub sched_remove : Sched → ℕ → Sched
sched_remove s thread =
    let (links, rq) = runqueue_remove s.links s.rq thread in
    record { links = links; rq = rq; current_thread = cleared s.current_thread thread }

-- `thread_switch` makes the next thread the current one, and faults if that is `NULL`. Its registers are not part of
-- this state.
unfoldable pub sched_tick : Sched → Option Sched
sched_tick s =
    let rq = runqueue_next s.links s.rq in
    rq.current >>= λ next. some (record s { rq = rq; current_thread = some next })
