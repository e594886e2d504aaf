-- ===== src/Tests/ClocksourceTests.antt =====
-- kernel/time/clocksource.c with clock sources at 10 and 20.
use mint.Base.{ℕ, ◌+◌, none, some, false, [], ◌∷◌, ◌>>=◌, ◌≡◌, refl, arith, ◌==◌, if◌then◌else◌}
use mint.Ring.{list_add, list_runtime_init}
use mint.Time.{time_update_clocksource}
use mint.Clocksource.{Clocksources, clocksource_register, clocksource_select, select_from}
use mint.Clocksource.Select.{AllAtMost, clocksource_register-AllAtMost}
use mint.Tests.RingTests.{blank, one_element-IsRing}

abbrev sources : Clocksources
sources = record {
  links = list_add (list_runtime_init blank 100) 100 10;
  rating = λ cs. if cs == 10 then 5 else 7;
  frequency = λ cs. cs + 1000;
  clocksource_list = 100;
  current_clocksource = some 10;
  time = record { ts = none; tv_sec = 0; tv_nsec = 0; locked = false };
}

clocksource_run :
    (clocksource_register 3 (λ _. 4) sources 20 >>= λ c. c.current_clocksource) ≡ some 20
unfolding clocksource_register clocksource_select select_from list_add list_runtime_init
clocksource_run = refl

clocksource_register-AllAtMost_example :
    (t : Clocksources) × (x : ℕ) × (clocksource_register 3 (λ _. 4) sources 20 ≡ some t)
    × (t.current_clocksource ≡ some x)
    × AllAtMost sources.rating (20 ∷ 10 ∷ []) x
    × (t.time ≡ time_update_clocksource (x + 1000) 4 sources.time)
clocksource_register-AllAtMost_example =
    clocksource_register-AllAtMost 3 (λ _. 4) sources 20 (10 ∷ []) one_element-IsRing (omega arith)
      (omega arith, tt) (omega arith)
