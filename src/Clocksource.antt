-- ===== src/Clocksource.antt =====
-- kernel/time/clocksource.c: the registered clock sources and the one in use. A clock source goes by
-- the address of its `list`, and `none` is `NULL`. What `read` returns is an argument.
pub mod Select
use mint.Base.{ℕ, zero, suc, Bool, true, false, Option, none, some, ◌>>=◌, ltb, ◌==◌, if◌then◌else◌}
use mint.Ring.{Links, list_add}
use mint.Time.{Time, time_update_clocksource}

-- The fields of `struct clocksource` that are read, at every address, the head of `clocksource_list`,
-- `current_clocksource`, and the clock of time.c.
pub record Clocksources : Type 0 where
  pub links : Links
  pub rating : ℕ → ℕ
  pub frequency : ℕ → ℕ
  pub clocksource_list : ℕ
  pub current_clocksource : Option ℕ
  pub time : Time

-- One round of the loop of `clocksource_select`: `current_clocksource` after it.
abbrev pub better : (ℕ → ℕ) → Option ℕ → ℕ → ℕ
better rating none cs = cs
better rating (some current) cs = if ltb (rating current) (rating cs) then cs else current

-- The loop, on fuel, from `cs` on: `current_clocksource` and `cs_changed`.
unfoldable pub select_from : ℕ → Clocksources → ℕ → Option ℕ → Bool → Option (Option ℕ × Bool)
select_from zero c cs current changed = none
select_from (suc fuel) c cs current changed =
    let rest = select_from fuel c (c.links.next cs) (some (better c.rating current cs)) true in
    if cs == c.clocksource_list then some (current, changed) else rest

abbrev pub switched : (ℕ → ℕ) → Clocksources → Option ℕ → Bool → Clocksources
switched read c current false = record c { current_clocksource = current }
switched read c none true = record c { current_clocksource = none }
switched read c (some cs) true = record c {
  current_clocksource = some cs;
  time = time_update_clocksource (c.frequency cs) (read cs) c.time;
}

unfoldable pub clocksource_select : ℕ → (ℕ → ℕ) → Clocksources → Option Clocksources
clocksource_select fuel read c =
    select_from fuel c (c.links.next c.clocksource_list) c.current_clocksource false
    >>= λ (current, changed). some (switched read c current changed)

unfoldable pub clocksource_register : ℕ → (ℕ → ℕ) → Clocksources → ℕ → Option Clocksources
clocksource_register fuel read c cs =
    clocksource_select fuel read (record c { links = list_add c.links c.clocksource_list cs })

abbrev pub clocksource_get : Clocksources → Option ℕ
clocksource_get c = c.current_clocksource
