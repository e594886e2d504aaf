-- ===== src/Time/Advance.antt =====
-- How far `time_update` of kernel/time/time.c moves the clock.
use native.Mathlib.Nat.{mod-eq_of_lt}
use native.Mathlib.Decide.{dec_lt}
use mint.Base.{
  ℕ, zero, suc, ◌+◌, ◌-◌, ◌*◌, ◌/◌, ◌%◌, ◌^◌, ◌≤◌, ◌<◌, true, false, ◌&&◌, some, ◌≡◌, refl, ◌∙◌, ap,
  arith, ltb, leb, ne→==-false,
}
use mint.Math.{u64}
use mint.Time.{Time, Timesource, nsec_per_sec, time_cycle_to_ns, coalesce, advance, time_update}

-- Seconds and nanoseconds that hold a number of nanoseconds, with less than a second over.
pub record IsSplit (total sec nsec : ℕ) : Type 0 where
  pub exact : sec * nsec_per_sec + nsec ≡ total
  pub left_over : nsec < nsec_per_sec

coalesce_step :
    (fuel sec nsec : ℕ)
    → nsec_per_sec ≤ nsec
    → nsec < 2 ^ 63
    → sec + 1 < 2 ^ 64
    → coalesce (suc fuel) sec nsec ≡ coalesce fuel (sec + 1) (nsec - nsec_per_sec)
unfolding coalesce
coalesce_step fuel sec nsec h small wrap =
    let test : (leb nsec_per_sec nsec && ltb nsec (2 ^ 63)) ≡ true = ground arith in
    let e : u64 (sec + 1) ≡ sec + 1 = omega arith in
    rw test (ap (λ s. coalesce fuel s (nsec - nsec_per_sec)) e)

-- The loop moves whole seconds over, with a round for each and one more as fuel.
coalesce_lem :
    (fuel sec nsec : ℕ)
    → nsec < fuel * nsec_per_sec
    → nsec < 2 ^ 63
    → sec + nsec < 2 ^ 64
    → (sec' : ℕ) × (nsec' : ℕ) × (coalesce fuel sec nsec ≡ some (sec', nsec'))
      × IsSplit (sec * nsec_per_sec + nsec) sec' nsec'
unfolding coalesce
coalesce_lem zero sec nsec h small wrap = absurd (omega arith)
coalesce_lem (suc fuel) sec nsec h small wrap = elim (dec_lt nsec nsec_per_sec) [
  | yes q ↦ (sec, nsec, ground (arith, q), record { exact = refl; left_over = q })
  | no q ↦
      let (sec', nsec', runs, split) =
        coalesce_lem fuel (sec + 1) (nsec - nsec_per_sec) (omega arith) (omega arith)
          (omega arith) in
      (
        sec',
        nsec',
        coalesce_step fuel sec nsec (omega arith) small (omega arith) ∙ runs,
        record { exact = omega (arith, split.exact); left_over = split.left_over },
      )
]

-- The clock after `advance`, in terms of its two steps.
advance_runs :
    (fuel now : ℕ) (t : Time) (ts : Timesource) (n sec nsec : ℕ)
    → time_cycle_to_ns (u64 (now + (2 ^ 64 - ts.last))) ts.frequency ≡ some n
    → t.tv_nsec + n < 2 ^ 64
    → coalesce fuel t.tv_sec (t.tv_nsec + n) ≡ some (sec, nsec)
    → advance fuel now t ts
      ≡ some (record t {
        ts = some (record { frequency = ts.frequency; last = now });
        tv_sec = sec;
        tv_nsec = nsec;
      })
unfolding advance
advance_runs fuel now t ts n sec nsec cycles small runs = rw (cycles, mod-eq_of_lt small, runs) refl

cycles_lem :
    (last now frequency : ℕ)
    → 0 < frequency
    → last ≤ now
    → now < 2 ^ 64
    → (now - last) * nsec_per_sec < 2 ^ 64
    → time_cycle_to_ns (u64 (now + (2 ^ 64 - last))) frequency
      ≡ some ((now - last) * nsec_per_sec / frequency)
unfolding time_cycle_to_ns
cycles_lem last now frequency positive after small fits =
    let elapsed : (now + (2 ^ 64 - last)) % 2 ^ 64 ≡ now - last = omega arith in
    rw (ne→==-false frequency 0 (omega arith), elapsed, mod-eq_of_lt fits) refl

started :
    (fuel now : ℕ) (t : Time) (ts : Timesource)
    → t.ts ≡ some ts
    → t.locked ≡ false
    → time_update fuel now t ≡ advance fuel now t ts
unfolding time_update
started fuel now t ts clock free = simp (free, clock)

-- With a clock source of positive frequency and the lock free, and with no sum or product past its
-- width, `time_update` succeeds, moves the clock by the nanoseconds that the counted cycles take,
-- rounded down, keeps less than a second of nanoseconds, and notes the count. A round for each whole
-- second that comes up and one more are fuel enough.
pub time_update_lem :
    (fuel now : ℕ) (t : Time) (ts : Timesource)
    → t.ts ≡ some ts
    → t.locked ≡ false
    → 0 < ts.frequency
    → ts.last ≤ now
    → now < 2 ^ 64
    → (now - ts.last) * nsec_per_sec < 2 ^ 64
    → let n = (now - ts.last) * nsec_per_sec / ts.frequency in
      t.tv_nsec + n < 2 ^ 63
      → t.tv_sec + (t.tv_nsec + n) < 2 ^ 64
      → t.tv_nsec + n < fuel * nsec_per_sec
      → (t' : Time) × (time_update fuel now t ≡ some t')
        × IsSplit (t.tv_sec * nsec_per_sec + (t.tv_nsec + n)) t'.tv_sec t'.tv_nsec
        × (t'.ts ≡ some (record { frequency = ts.frequency; last = now }))
        × (t'.locked ≡ false)
unfolding time_update
time_update_lem fuel now t ts clock free positive after small fits narrow sum enough =
    let n = (now - ts.last) * nsec_per_sec / ts.frequency in
    let (sec, nsec, runs, split) = coalesce_lem fuel t.tv_sec (t.tv_nsec + n) enough narrow sum in
    let cycles = cycles_lem ts.last now ts.frequency positive after small fits in
    (
      record t {
        ts = some (record { frequency = ts.frequency; last = now });
        tv_sec = sec;
        tv_nsec = nsec;
      },
      started fuel now t ts clock free
          ∙ advance_runs fuel now t ts n sec nsec cycles (omega (arith, narrow)) runs,
      split,
      refl,
      free,
    )
