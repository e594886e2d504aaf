-- ===== src/Memory/Find.antt =====
-- What `memchr` and `memcmp` of lib/string.c return.
use mint.Base.{
  ℕ, zero, suc, ◌+◌, ◌%◌, ◌<◌, none, some, ◌≡◌, ◌≢◌, ◌⊎◌, inl, inr, refl, sym, ap, ap₂, ◌∙◌, arith,
  pos, sub_ℕ, ne→==-false,
}
use native.Mathlib.Decide.{ℕ_discrete}
use mint.Memory.{Memory, memchr, memcmp}

-- The first byte equal to the low byte of `c` lies `i` bytes into the range.
pub record IsFirst (m : Memory) (str c n i : ℕ) : Type 0 where
  pub inside : i < n
  pub found : m (str + i) ≡ c % 256
  pub before : (j : ℕ) → j < i → m (str + j) ≢ c % 256

-- Of the bytes of a range, the first and then the others.
over {ℓ} :
    (P : ℕ → Type ℓ) (n : ℕ) → P 0 → ((j : ℕ) → j < n → P (suc j)) → (j : ℕ) → j < suc n → P j
over P n z s zero h = z
over P n z s (suc j) h = s j (omega arith)

-- The byte `j` from the next address on.
at_next : (m : Memory) (p j : ℕ) → m (p + 1 + j) ≡ m (p + suc j)
at_next m p j = ap m (omega arith)

at_start : (m : Memory) (p : ℕ) → m (p + 0) ≡ m p
at_start m p = ap m (omega arith)

hit : (m : Memory) (str c n : ℕ) → m str ≡ c % 256 → memchr m str c (suc n) ≡ some (str + 0)
unfolding memchr
hit m str c n e = ground (arith, e)

miss :
    (m : Memory) (str c n : ℕ) → m str ≢ c % 256 → memchr m str c (suc n) ≡ memchr m (str + 1) c n
unfolding memchr
miss m str c n ne = rw (ne→==-false (m str) (c % 256) ne)

-- `memchr` returns `NULL` if no byte of the range is the low byte of `c`, and else a pointer to the
-- first that is.
pub memchr_lem :
    (m : Memory) (str c n : ℕ)
    → ((memchr m str c n ≡ none) × ((j : ℕ) → j < n → m (str + j) ≢ c % 256))
      ⊎ ((i : ℕ) × (memchr m str c n ≡ some (str + i)) × IsFirst m str c n i)
memchr_lem m str c zero = inl (unfold memchr in refl, λ j h. absurd (omega arith))
memchr_lem m str c (suc n) = elim (ℕ_discrete (m str) (c % 256)) [
  | yes e ↦ inr (
    0,
    hit m str c n e,
    record {
      inside = omega arith;
      found = at_start m str ∙ e;
      before = λ j h. absurd (omega arith);
    },
  )
  | no ne ↦ elim (memchr_lem m (str + 1) c n) [
    | inl (runs, none_of) ↦ inl (
      miss m str c n ne ∙ runs,
      over (λ j. m (str + j) ≢ c % 256) n (λ q. ne (sym (at_start m str) ∙ q))
          (λ j h q. none_of j h (at_next m str j ∙ q)),
    )
    | inr (i, runs, first) ↦ inr (
      suc i,
      miss m str c n ne ∙ runs ∙ ap some (omega arith),
      record {
        inside = omega (arith, first.inside);
        found = sym (at_next m str i) ∙ first.found;
        before =
            over (λ j. m (str + j) ≢ c % 256) i (λ q. ne (sym (at_start m str) ∙ q))
              (λ j h q. first.before j h (at_next m str j ∙ q));
      },
    )
  ]
]

equal_first :
    (m : Memory) (str1 str2 n : ℕ)
    → m str1 ≡ m str2
    → memcmp m str1 str2 (suc n) ≡ memcmp m (str1 + 1) (str2 + 1) n
unfolding memcmp
equal_first m str1 str2 n e = ground (arith, e)

-- `memcmp` returns 0 if the two ranges hold the same bytes, and else the difference of the first two
-- bytes that are not the same.
pub memcmp_lem :
    (m : Memory) (str1 str2 n : ℕ)
    → ((memcmp m str1 str2 n ≡ pos 0) × ((j : ℕ) → j < n → m (str1 + j) ≡ m (str2 + j)))
      ⊎ ((i : ℕ) × (i < n)
          × ((j : ℕ) → j < i → m (str1 + j) ≡ m (str2 + j))
          × (m (str1 + i) ≢ m (str2 + i))
          × (memcmp m str1 str2 n ≡ sub_ℕ (m (str1 + i)) (m (str2 + i))))
unfolding memcmp
memcmp_lem m str1 str2 zero = inl (refl, λ j h. absurd (omega arith))
memcmp_lem m str1 str2 (suc n) = elim (ℕ_discrete (m str1) (m str2)) [
  | yes e ↦ elim (memcmp_lem m (str1 + 1) (str2 + 1) n) [
    | inl (runs, same) ↦ inl (
      equal_first m str1 str2 n e ∙ runs,
      over (λ j. m (str1 + j) ≡ m (str2 + j)) n (at_start m str1 ∙ e ∙ sym (at_start m str2))
          (λ j h. sym (at_next m str1 j) ∙ same j h ∙ at_next m str2 j),
    )
    | inr (i, lt, same, differ, runs) ↦ inr (
      suc i,
      omega arith,
      over (λ j. m (str1 + j) ≡ m (str2 + j)) i (at_start m str1 ∙ e ∙ sym (at_start m str2))
          (λ j h. sym (at_next m str1 j) ∙ same j h ∙ at_next m str2 j),
      λ q. differ (at_next m str1 i ∙ q ∙ sym (at_next m str2 i)),
      equal_first m str1 str2 n e ∙ runs ∙ ap₂ sub_ℕ (at_next m str1 i) (at_next m str2 i),
    )
  ]
  | no ne ↦ inr (
    0,
    omega arith,
    λ j h. absurd (omega arith),
    λ q. ne (sym (at_start m str1) ∙ q ∙ at_start m str2),
    rw (ne→==-false (m str1) (m str2) ne)
        (ap₂ sub_ℕ (sym (at_start m str1)) (sym (at_start m str2))),
  )
]
