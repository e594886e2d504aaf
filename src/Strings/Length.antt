-- ===== src/Strings/Length.antt =====
-- `strlen`, and the walk of `strcat` to the end, of lib/string.c.
use mint.Base.{ℕ, zero, suc, ◌+◌, ◌<◌, List, [], ◌∷◌, length, some, ◌≡◌, ap, arith, ne→==-false}
use mint.Memory.{Memory}
use mint.Strings.{strlen, end_of}
use mint.Strings.Chars.{IsString}

-- On a string `strlen` stops and returns the number of its characters; one round more is fuel enough.
pub strlen_lem :
    (fuel : ℕ) (m : Memory) (str : ℕ) (s : List ℕ)
    → IsString m str s
    → length s < fuel
    → strlen fuel m str ≡ some (length s)
unfolding strlen
strlen_lem zero m str s h lt = absurd (omega arith)
strlen_lem (suc fuel) m str [] h lt = ground (arith, h)
strlen_lem (suc fuel) m str (c ∷ s) h lt =
    rw (h.0, ne→==-false c 0 h.1, strlen_lem fuel m (str + 1) s h.2 (omega arith))
      (ap some (omega arith))

pub end_of_lem :
    (fuel : ℕ) (m : Memory) (p : ℕ) (s : List ℕ)
    → IsString m p s
    → length s < fuel
    → end_of fuel m p ≡ some (p + length s)
unfolding end_of
end_of_lem zero m p s h lt = absurd (omega arith)
end_of_lem (suc fuel) m p [] h lt = ground (arith, h)
end_of_lem (suc fuel) m p (c ∷ s) h lt =
    rw (h.0, ne→==-false c 0 h.1, end_of_lem fuel m (p + 1) s h.2 (omega arith))
      (ap some (omega arith))
