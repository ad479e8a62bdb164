-- ===== src/Monitors.antt =====
-- main_handler.cc: the monitors of processes, `add_mon`, `del_mon`, `del_mons` and the lookup of
-- `process_exit`. A monitor, a process and a handler are numbers; a monitor stands for its class under
-- `driver_compare_monitors`. What `driver_monitor_process` makes is an argument, and none if it fails.
pub mod Linked
pub mod Owners
pub mod Steps
pub mod Watches
mod Tests
use gen_utp.Base.{
  ℕ, Bool, true, false, Option, some, none, List, [], ◌∷◌, ◌++◌, ◌==◌, if◌then◌else◌, lookup,
  insert, erase,
}

pub record Monitors : Type 0 where
  pub mon_map : List (ℕ × ℕ)
  pub proc_mon_map : List (ℕ × ℕ)

abbrev pub no_monitors : Monitors
no_monitors = record { mon_map = []; proc_mon_map = [] }

unfoldable pub add_mon : Option ℕ → ℕ → ℕ → Monitors → Bool × Monitors
add_mon none proc h s = (false, s)
add_mon (some mon) proc h s = (
  true,
  record { mon_map = insert mon h s.mon_map; proc_mon_map = insert proc mon s.proc_mon_map },
)

-- The maps without a monitor and a process.
abbrev pub without : ℕ → ℕ → Monitors → Monitors
without mon proc s = record {
  mon_map = erase mon s.mon_map;
  proc_mon_map = erase proc s.proc_mon_map;
}

-- `del_mon`: the maps, and the monitors that `driver_demonitor_process` is called with.
abbrev del_found : Option ℕ → ℕ → Monitors → Monitors × List ℕ
del_found none proc s = (s, [])
del_found (some mon) proc s = (without mon proc s, mon ∷ [])

unfoldable pub del_mon : ℕ → Monitors → Monitors × List ℕ
del_mon proc s = del_found (lookup proc s.proc_mon_map) proc s

-- The inner loop of `del_mons`, which goes through the processes.
unfoldable pub drop_mon : ℕ → List (ℕ × ℕ) → List (ℕ × ℕ) × List ℕ
drop_mon mon [] = ([], [])
drop_mon mon ((proc, m) ∷ procs) =
    let (rest, out) = drop_mon mon procs in
    if m == mon then (rest, mon ∷ out) else ((proc, m) ∷ rest, out)

-- The outer loop.
unfoldable pub del_loop : ℕ → List (ℕ × ℕ) → List (ℕ × ℕ) → Monitors × List ℕ
unfolding drop_mon
del_loop h [] procs = (record { mon_map = []; proc_mon_map = procs }, [])
del_loop h ((mon, h') ∷ mons) procs =
    let (procs', out) = drop_mon mon procs in
    let (gone, more) = del_loop h mons procs' in
    let (kept, others) = del_loop h mons procs in
    if h' == h
    then (gone, out ++ more)
    else (record kept { mon_map = (mon, h') ∷ kept.mon_map }, others)

-- `del_mons` of the handler `this`, which keeps the maps.
unfoldable pub del_mons : ℕ → ℕ → Monitors → Monitors × List ℕ
unfolding del_loop
del_mons this h s = if h == this then (s, []) else del_loop h s.mon_map s.proc_mon_map

-- `process_exit`: the handler that is told, and the maps. `proc` is what
-- `driver_get_monitored_process` returns.
abbrev exit_found : Option ℕ → ℕ → ℕ → Monitors → Option ℕ × Monitors
exit_found none mon proc s = (none, s)
exit_found (some h) mon proc s = (some h, without mon proc s)

unfoldable pub process_exit : ℕ → ℕ → Monitors → Option ℕ × Monitors
process_exit mon proc s = exit_found (lookup mon s.mon_map) mon proc s
