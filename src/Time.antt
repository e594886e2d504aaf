-- ===== src/Time.antt =====
-- kernel/time/time.c: the kernel's clock, advanced by the cycles that a clock source has counted. What
-- `read` returns is an argument. `none` is a division by 0, a lock that stays taken, or fuel run out.
pub mod Advance
use mint.Base.{
  ℕ, zero, suc, ◌+◌, ◌-◌, ◌*◌, ◌/◌, ◌^◌, Bool, true, false, ◌&&◌, Option, none, some, ◌>>=◌, ltb,
  leb, ◌==◌, if◌then◌else◌,
}
use mint.Math.{u64}

abbrev pub nsec_per_sec : ℕ
nsec_per_sec = 1000000000

-- `struct timesource`, for a clock source: its frequency, and what it last read.
pub record Timesource : Type 0 where
  pub frequency : ℕ
  pub last : ℕ

-- `struct time` and its lock. `tv_nsec` is a `long`, as its 64 bits; a `clock` of `NULL` is `none`.
pub record Time : Type 0 where
  pub ts : Option Timesource
  pub tv_sec : ℕ
  pub tv_nsec : ℕ
  pub locked : Bool

unfoldable pub time_cycle_to_ns : ℕ → ℕ → Option ℕ
time_cycle_to_ns cycle frequency =
    if frequency == 0 then none else some (u64 (cycle * nsec_per_sec) / frequency)

-- `while (tv_nsec >= NSEC_PER_SEC)`, a signed comparison, on fuel: the seconds and what is left.
unfoldable pub coalesce : ℕ → ℕ → ℕ → Option (ℕ × ℕ)
coalesce zero sec nsec = none
coalesce (suc fuel) sec nsec =
    let rest = coalesce fuel (u64 (sec + 1)) (nsec - nsec_per_sec) in
    if leb nsec_per_sec nsec && ltb nsec (2 ^ 63) then rest else some (sec, nsec)

-- The body of `time_update` for the clock source `ts`.
unfoldable pub advance : ℕ → ℕ → Time → Timesource → Option Time
advance fuel now t ts = time_cycle_to_ns (u64 (now + (2 ^ 64 - ts.last))) ts.frequency >>= λ nsec.
    coalesce fuel t.tv_sec (u64 (t.tv_nsec + nsec)) >>= λ (sec, left).
    some (record t { ts = some (record ts { last = now }); tv_sec = sec; tv_nsec = left })

unfoldable pub time_update : ℕ → ℕ → Time → Option Time
time_update fuel now t =
    if t.locked then none else elim t.ts [ none ↦ some t | some ts ↦ advance fuel now t ts ]

-- What `ktime_get` returns, and the clock after it.
unfoldable pub ktime_get : ℕ → ℕ → Time → Option (ℕ × Time)
ktime_get fuel now t =
    time_update fuel now t >>= λ t'. some (u64 (t'.tv_sec * nsec_per_sec + t'.tv_nsec), t')

-- `time_update_clocksource`, with the frequency of the source and what it reads.
unfoldable pub time_update_clocksource : ℕ → ℕ → Time → Time
time_update_clocksource frequency now t = record t {
  ts = some (record { frequency = frequency; last = now });
}

unfoldable pub time_init : ℕ → ℕ → Time → Time
time_init frequency now t = record (time_update_clocksource frequency now t) {
  tv_sec = 0;
  tv_nsec = 0;
}
