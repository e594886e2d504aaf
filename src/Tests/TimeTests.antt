-- ===== src/Tests/TimeTests.antt =====
-- kernel/time/time.c with a clock source of 1000 Hz.
use mint.Base.{◌+◌, ◌*◌, false, some, ◌>>=◌, ◌≡◌, refl, arith}
use mint.Time.{
  Time, Timesource, nsec_per_sec, time_cycle_to_ns, coalesce, advance, time_update, ktime_get,
}
use mint.Time.Advance.{IsSplit, time_update_lem}

abbrev source : Timesource
source = record { frequency = 1000; last = 5 }

abbrev clock : Time
clock = record { ts = some source; tv_sec = 7; tv_nsec = 999999999; locked = false }

-- 2500 ticks are two and a half seconds.
ktime_run : (ktime_get 10 2505 clock >>= λ (now, t). some now) ≡ some 10499999999
unfolding ktime_get time_update advance time_cycle_to_ns coalesce
ktime_run = refl

time_update_lem_example :
    (t' : Time) × (time_update 10 2505 clock ≡ some t')
    × IsSplit (7 * nsec_per_sec + (999999999 + 2500000000)) t'.tv_sec t'.tv_nsec
    × (t'.ts ≡ some (record { frequency = 1000; last = 2505 }))
    × (t'.locked ≡ false)
time_update_lem_example =
    time_update_lem 10 2505 clock source refl refl (omega arith) (omega arith) (omega arith)
      (omega arith) (omega arith) (omega arith) (omega arith)
