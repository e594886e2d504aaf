-- ===== src/Sched/Turns.antt =====
-- Whose turn it is after `runqueue_next` of tm/sched.c.
use mint.Base.{
  ℕ, List, [], ◌∷◌, ◌++◌, some, false, ◌≡◌, ◌≢◌, refl, sym, ◌∙◌, ap, ==_refl, ne→==-false,
}
use mint.Ring.{Links, list_empty}
use mint.Ring.Chain.{IsChain, IsOutside, IsRing}
use mint.Sched.{Sched, next_turn, runqueue_next, sched_tick}

-- The first of the list, and `b` if there is none.
abbrev pub first_or : List ℕ → ℕ → ℕ
first_or [] b = b
first_or (x ∷ xs) b = x

next_first :
    (links : Links) (a b : ℕ) (xs : List ℕ) → IsChain links a xs b → links.next a ≡ first_or xs b
next_first links a b [] c = c.0
next_first links a b (x ∷ xs) c = c.0

next_after :
    (links : Links) (a b c : ℕ) (ys zs : List ℕ)
    → IsChain links a (ys ++ c ∷ zs) b
    → links.next c ≡ first_or zs b
next_after links a b c [] zs h = next_first links c b zs h.2
next_after links a b c (y ∷ ys) zs h = next_after links y b c ys zs h.2

IsOutside-after : (p c : ℕ) (ys zs : List ℕ) → IsOutside p (ys ++ c ∷ zs) → (p ≢ c) × IsOutside p zs
IsOutside-after p c [] zs o = o
IsOutside-after p c (y ∷ ys) zs o = IsOutside-after p c ys zs o.1

-- A list with elements is not empty.
not_empty :
    (links : Links) (list x : ℕ) (xs : List ℕ)
    → IsRing links list (x ∷ xs)
    → list_empty links list ≡ false
unfolding list_empty
not_empty links list x xs r = rw r.chain.0 (ne→==-false x list (λ e. r.outside.0 (sym e)))

front : (c d : ℕ) (ys zs : List ℕ) → first_or (ys ++ c ∷ zs) d ≡ first_or ys c
front c d [] zs = refl
front c d (y ∷ ys) zs = refl

turn :
    (links : Links) (list c : ℕ) (ys zs : List ℕ)
    → IsRing links list (ys ++ c ∷ zs)
    → next_turn links list c ≡ first_or (zs ++ ys) c
turn links list c ys [] r =
    rw (next_after links list list c ys [] r.chain, ==_refl list)
      (next_first links list list (ys ++ c ∷ []) r.chain ∙ front c list ys [])
turn links list c ys (z ∷ zs) r =
    let (ne, o) = IsOutside-after list c ys (z ∷ zs) r.outside in
    rw (next_after links list list c ys (z ∷ zs) r.chain, ne→==-false z list (λ e. o.0 (sym e)))
      refl

some_element :
    (links : Links) (list c : ℕ) (ys zs : List ℕ)
    → IsRing links list (ys ++ c ∷ zs)
    → list_empty links list ≡ false
some_element links list c [] zs r = not_empty links list c zs r
some_element links list c (y ∷ ys) zs r = not_empty links list y (ys ++ c ∷ zs) r

-- Round robin: if the current thread of the run queue is among the runnable ones, a tick makes
-- current the one after it, or the first after the last, or the same if it is the only one.
pub sched_tick-turn :
    (s : Sched) (c : ℕ) (ys zs : List ℕ)
    → IsRing s.links s.rq.runnable (ys ++ c ∷ zs)
    → s.rq.current ≡ some c
    → (s' : Sched) × (sched_tick s ≡ some s') × (s'.current_thread ≡ some (first_or (zs ++ ys) c))
unfolding sched_tick runqueue_next
sched_tick-turn s c ys zs r e = (
  record s {
    rq = record s.rq { current = some (next_turn s.links s.rq.runnable c) };
    current_thread = some (next_turn s.links s.rq.runnable c);
  },
  rw (some_element s.links s.rq.runnable c ys zs r, e) refl,
  ap some (turn s.links s.rq.runnable c ys zs r),
)
