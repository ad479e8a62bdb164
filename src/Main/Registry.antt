-- ===== src/Main/Registry.antt =====
-- main_handler.cc: the main handler as the other handlers use it, the maps of descriptors and monitors, with
-- the static methods, which do nothing while `main_handler` is null. Handlers are numbers.
use gen_utp.Base.{
  ℕ, zero, suc, ◌*◌, ◌+◌, Bool, true, false, Option, some, none, List, [], ◌∷◌, ◌==◌, if◌then◌else◌,
  ℤ, is_minus_one, lookup, insert, erase,
}
use gen_utp.Monitors.{Monitors, no_monitors, add_mon, del_mon, del_mons, process_exit}

-- The fields of the main handler, with its own number.
pub record Registry : Type 0 where
  pub this : ℕ
  pub port : ℕ
  pub fdmap : List (ℕ × ℕ)
  pub monitors : Monitors

-- The key of an `int` in `fdmap`.
unfoldable pub fd_key : ℤ → ℕ
fd_key (ℤ.pos n) = 2 * n
fd_key (ℤ.negsuc n) = 2 * n + 1

-- A call of `driver_select`: the descriptor, and whether it is turned on.
pub data Selection : Type 0 where
  turned_on turned_off : ℤ → Selection

abbrev selections : ℕ → Selection → List Selection
selections zero e = []
selections (suc p) e = e ∷ []

unfoldable pub select : ℤ → ℕ → Registry → Registry × List Selection
unfolding fd_key
select fd h m =
    (record m { fdmap = insert (fd_key fd) h m.fdmap }, selections m.port (turned_on fd))

unfoldable pub deselect : ℤ → Registry → Registry × List Selection
unfolding fd_key is_minus_one
deselect fd m =
    if is_minus_one fd
    then (m, [])
    else (record m { fdmap = erase (fd_key fd) m.fdmap }, selections m.port (turned_off fd))

-- `ready_input`: the handler that is told.
unfoldable pub ready_input : ℤ → Registry → Option ℕ
unfolding fd_key
ready_input fd m = lookup (fd_key fd) m.fdmap

unfoldable pub start_input : ℤ → ℕ → Option Registry → Option Registry × List Selection
unfolding select
start_input fd h none = (none, [])
start_input fd h (some m) = let (m', es) = select fd h m in (some m', es)

unfoldable pub stop_input : ℤ → Option Registry → Option Registry × List Selection
unfolding deselect
stop_input fd none = (none, [])
stop_input fd (some m) = let (m', es) = deselect fd m in (some m', es)

-- `port = 0` of the handler `this`, which may be the main handler.
unfoldable pub give_port : ℕ → Option Registry → Option Registry
give_port this none = none
give_port this (some m) = some (record m { port = if m.this == this then 0 else m.port })

-- `add_monitor`, with the monitor that `driver_monitor_process` makes, or none.
unfoldable pub add_monitor : Option ℕ → ℕ → ℕ → Option Registry → Bool × Option Registry
unfolding add_mon
add_monitor answer proc h none = (false, none)
add_monitor answer proc h (some m) =
    let (added, ms) = add_mon answer proc h m.monitors in (added, some (record m { monitors = ms }))

unfoldable pub del_monitor : ℕ → Option Registry → Option Registry × List ℕ
unfolding del_mon
del_monitor proc none = (none, [])
del_monitor proc (some m) =
    let (ms, out) = del_mon proc m.monitors in (some (record m { monitors = ms }), out)

unfoldable pub del_monitors : ℕ → Option Registry → Option Registry × List ℕ
unfolding del_mons
del_monitors h none = (none, [])
del_monitors h (some m) =
    let (ms, out) = del_mons m.this h m.monitors in (some (record m { monitors = ms }), out)

-- `check_utp_timeouts`: whether libutp is called and the timer set again.
unfoldable pub check_utp_timeouts : Option Registry → Bool
check_utp_timeouts none = false
check_utp_timeouts (some m) = true

-- The keys that `stop` goes through, and the calls for them.
abbrev pub keys : List (ℕ × ℕ) → List ℕ
keys [] = []
keys ((k, h) ∷ m) = k ∷ keys m

-- `start` of a port's handler: the first one becomes the main handler, with empty maps.
unfoldable pub start : ℕ → ℕ → Option Registry → Option Registry
start this port none =
    some (record { this = this; port = port; fdmap = []; monitors = no_monitors })
start this port (some m) = some m

abbrev stopped_keys : ℕ → List (ℕ × ℕ) → List ℕ
stopped_keys zero m = []
stopped_keys (suc p) m = keys m

-- The part of `stop` for the main handler itself: what is left, and the keys of the descriptors for which
-- `driver_select` is turned off.
unfoldable pub stop_main : ℕ → Option Registry → Option Registry × List ℕ
stop_main this none = (none, [])
stop_main this (some m) =
    if m.this == this then (none, stopped_keys m.port m.fdmap) else (some m, [])

-- `process_exit`: the handler that is told.
unfoldable pub exited : ℕ → ℕ → Registry → Option ℕ × Registry
unfolding process_exit
exited mon proc m =
    let (told, ms) = process_exit mon proc m.monitors in (told, record m { monitors = ms })
