-- ===== src/Monitors/Tests.antt =====
-- Inputs for the monitors of main_handler.cc, and the theorems at them.
use gen_utp.Base.{ℕ, ◌/◌, ◌≡◌, ◌≢◌, refl, some, none, lookup, insert, arith}
use gen_utp.Monitors.{Monitors, no_monitors, add_mon, del_mon}
use gen_utp.Monitors.Linked.{IsLinked, add_mon-IsLinked}
use gen_utp.Monitors.Steps.{releasing, change, change-IsLinked, del_mon-first}

-- The monitor n watches the process n / 10.
abbrev owner : ℕ → ℕ
owner n = n / 10

no_monitors-IsLinked : IsLinked owner no_monitors
unfolding lookup
no_monitors-IsLinked = record {
  monitors = tt;
  processes = tt;
  owned = λ p m e. cc;
  there = λ p m e. cc;
}

-- The process 7 waits twice at the handler 3, and the process 8 at the handler 4.
abbrev watched : Monitors
watched = (add_mon (some 80) 8 4 (add_mon (some 71) 7 3 (add_mon (some 70) 7 3 no_monitors).1).1).1

watched-IsLinked : IsLinked owner watched
unfolding add_mon lookup insert
watched-IsLinked =
    add_mon-IsLinked owner (some 80) 8 4 _ (refl, refl)
      (add_mon-IsLinked owner (some 71) 7 3 _ (refl, refl)
        (add_mon-IsLinked owner (some 70) 7 3 no_monitors (refl, refl) no_monitors-IsLinked))

three_apart : ◌≢◌ {A = ℕ} 3 0
three_apart e = omega arith

change-IsLinked_example : IsLinked owner (change owner 0 (releasing 3) watched)
change-IsLinked_example = change-IsLinked owner 0 (releasing 3) watched three_apart watched-IsLinked

seventy_apart : ◌≢◌ {A = ℕ} 70 71
seventy_apart e = omega arith

del_mon-first_example :
    (lookup 70 (del_mon 7 (add_mon (some 71) 7 4 (add_mon (some 70) 7 3 no_monitors).1).1).0.mon_map
      ≡ none)
    × (lookup 71
          (del_mon 7 (add_mon (some 71) 7 4 (add_mon (some 70) 7 3 no_monitors).1).1).0.mon_map
        ≡ some 4)
unfolding lookup
del_mon-first_example = del_mon-first 70 71 7 3 4 no_monitors seventy_apart refl refl refl
