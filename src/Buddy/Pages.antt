-- ===== src/Buddy/Pages.antt =====
-- Which pages the calls of lib/buddy.c write.
use mint.Base.{ℕ, ◌%◌, ◌^◌, ◌≤◌, ◌<◌, ◌≡◌, ◌≢◌, refl, ◌∙◌, ap, arith, ne→==-false}
use mint.Stack.{Ram, frame, stack_push}
use mint.Buddy.{Buddy, push_block}
use mint.Buddy.Cover.{Lists, aligned_page}
use mint.Buddy.Invariant.{IsBuddy, frame-injective}

-- The first word of every page that starts outside the zone is the same.
pub record Keeps (zone : ℕ → ℕ) (ram ram' : Ram) : Type 0 where
  pub same_word :
      (p : ℕ) → p % 0x1000 ≡ 0 → p < 2 ^ 52 → zone p ≡ 0 → ram'.word (frame p) ≡ ram.word (frame p)

pub Keeps-words : (zone : ℕ → ℕ) (ram ram' : Ram) → ram'.word ≡ ram.word → Keeps zone ram ram'
Keeps-words zone ram ram' e = record { same_word = λ p al lt z. ap (λ w. w (frame p)) e }

pub Keeps-trans :
    (zone : ℕ → ℕ) (ram ram' ram'' : Ram)
    → Keeps zone ram ram'
    → Keeps zone ram' ram''
    → Keeps zone ram ram''
Keeps-trans zone ram ram' ram'' h h' = record {
  same_word = λ p al lt z. h'.same_word p al lt z ∙ h.same_word p al lt z;
}

pub push_block-Keeps :
    {zone taken : ℕ → ℕ} {limit : ℕ} {ram : Ram} {b : Buddy} {free : Lists}
    (v : IsBuddy zone taken limit ram b free) (k a : ℕ)
    → b.min_order ≤ k
    → a % 2 ^ k ≡ 0
    → 0 < taken a
    → Keeps zone ram (push_block b k a ram).1
unfolding push_block stack_push
push_block-Keeps {zone} {ram} {b} v k a lo al h = record {
  same_word = λ p page lt z. rw (ne→==-false (frame a) (frame p) (other p page lt z)) refl;
}
  where
    own : a % 0x1000 ≡ 0
    own = aligned_page k a (omega (arith, v.orders.page)) al

    here : a < 2 ^ 52
    here = omega (arith, v.below a (omega (arith, v.conserved a)), v.low)

    other : (p : ℕ) → p % 0x1000 ≡ 0 → p < 2 ^ 52 → zone p ≡ 0 → frame a ≢ frame p
    other p page lt z e =
        absurd
          (omega (arith, v.conserved a, h, z, ap zone (frame-injective p a page own lt here e)))
