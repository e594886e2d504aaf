-- ===== src/Strings/Chars.antt =====
-- A string in memory: its characters, none of them 0, and then a zero byte.
use mint.Base.{
  ℕ, suc, ◌+◌, ◌≤◌, List, [], ◌∷◌, length, ◌≡◌, ◌≢◌, arith, ◌==◌, ne→==-false, Bool, false, ◌||◌,
}
use mint.Memory.{Memory, write}

abbrev pub IsString : Memory → ℕ → List ℕ → Type 0
IsString m p [] = m p ≡ 0
IsString m p (c ∷ s) = (m p ≡ c) × (c ≢ 0) × IsString m (p + 1) s

abbrev pub mem_char : ℕ → List ℕ → Bool
mem_char c [] = false
mem_char c (d ∷ s) = c == d || mem_char c s

-- A write outside a string leaves it.
pub IsString-write :
    (m : Memory) (at v p : ℕ) (s : List ℕ)
    → ((j : ℕ) → j ≤ length s → p + j ≢ at)
    → IsString m p s
    → IsString (write m at v) p s
IsString-write m at v p [] away h =
    rw (ne→==-false at p (λ e. away 0 (omega arith) (omega arith))) h
IsString-write m at v p (c ∷ s) away h = (
  rw (ne→==-false at p (λ e. away 0 (omega arith) (omega arith))) h.0,
  h.1,
  IsString-write m at v (p + 1) s (λ j le e. away (suc j) (omega arith) (omega arith)) h.2,
)
