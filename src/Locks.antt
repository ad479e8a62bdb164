-- ===== src/Locks.antt =====
-- locker.h, globals.cc and the mutexes of main_handler.cc and listener.cc: what a thread of the runtime does
-- with them while it is in the driver, and what threads do together. A mutex is not recursive and has one
-- holder; `erl_drv_mutex_lock` waits while another thread, or the same one, holds it.
pub mod Methods
pub mod Calls
pub mod Order
pub mod Parts
pub mod Listening
pub mod Connecting
pub mod Followed
pub mod Turns
pub mod Exclusion
pub mod Progress
mod Tests
use gen_utp.Base.{
  ℕ, Bool, true, false, ◌||◌, ◌==◌, if◌then◌else◌, Option, some, none, List, [], ◌∷◌, ◌++◌,
}

-- `utp_mutex` of globals.cc, `map_mutex` of the main handler and the `queue_mutex` of the listener with the
-- number.
pub data Mutex : Type 0 where
  queue_mutex : ℕ → Mutex
  utp_mutex : Mutex
  map_mutex : Mutex

abbrev pub is_same : Mutex → Mutex → Bool
is_same (queue_mutex n) (queue_mutex k) = n == k
is_same utp_mutex utp_mutex = true
is_same map_mutex map_mutex = true
is_same _ _ = false

-- What the threads share: the two maps of monitors, the map of descriptors, the acceptors of a listener, and
-- libutp with its sockets.
pub data Shared : Type 0 where
  monitors : Shared
  fdmap : Shared
  acceptor_queue : ℕ → Shared
  libutp : Shared

pub data Act : Type 0 where
  lock : Mutex → Act
  unlock : Mutex → Act
  uses : Shared → Act

-- The life of a `MutexLocker` with what is done in it: its constructor locks and its destructor unlocks, on
-- whichever way the block is left.
unfoldable pub locked : Mutex → List Act → List Act
locked m body = lock m ∷ body ++ unlock m ∷ []

-- A thread: the mutexes that it holds, the last taken first, and what is left of its call of the driver.
pub record Thread : Type 0 where
  pub held : List Mutex
  pub todo : List Act

abbrev pub idle : Thread
idle = record { held = []; todo = [] }

abbrev pub holds : Mutex → List Mutex → Bool
holds m [] = false
holds m (h ∷ held) = is_same h m || holds m held

abbrev pub release : Mutex → List Mutex → List Mutex
release m [] = []
release m (h ∷ held) = if is_same h m then held else h ∷ release m held

-- Whether some thread holds a mutex.
abbrev pub is_taken : Mutex → List Thread → Bool
is_taken m [] = false
is_taken m (t ∷ threads) = holds m t.held || is_taken m threads

-- The next act of a thread among all of them, and none while it waits for a mutex or is done.
abbrev pub perform : List Thread → List Mutex → List Act → Option Thread
perform threads held [] = none
perform threads held (lock m ∷ todo) =
    if is_taken m threads then none else some (record { held = m ∷ held; todo = todo })
perform threads held (unlock m ∷ todo) = some (record { held = release m held; todo = todo })
perform threads held (uses s ∷ todo) = some (record { held = held; todo = todo })
