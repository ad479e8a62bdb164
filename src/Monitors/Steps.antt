-- ===== src/Monitors/Steps.antt =====
-- What happens to the monitors over time.
use gen_utp.Base.{
  ℕ, ◌≡◌, ◌≢◌, refl, ◌∙◌, Option, some, none, ◌∷◌, ==_iff, ne→==, lookup, insert, lookup-erase_self,
  lookup-erase_ne,
}
use gen_utp.Monitors.{Monitors, add_mon, del_mon, del_mons, process_exit}
use gen_utp.Monitors.Linked.{
  IsLinked, IsFresh, add_mon-IsLinked, del_mon-IsLinked, process_exit-IsLinked,
}
use gen_utp.Monitors.Owners.{del_mons-Released}

-- `adding` has the answer of the runtime, the process and the handler.
pub data Change : Type 0 where
  adding : Option ℕ → ℕ → ℕ → Change
  deleting : ℕ → Change
  releasing : ℕ → Change
  exiting : ℕ → ℕ → Change

module _ (owner : ℕ → ℕ) (this : ℕ) where
  unfoldable pub change : Change → Monitors → Monitors
  unfolding add_mon del_mon del_mons process_exit
  change (adding answer p h) s = (add_mon answer p h s).1
  change (deleting p) s = (del_mon p s).0
  change (releasing h) s = (del_mons this h s).0
  change (exiting m p) s = (process_exit m p s).1

  -- What the runtime sees to, and that `this` is not released.
  abbrev pub Granted : Change → Monitors → Type 0
  Granted (adding answer p h) s = IsFresh owner answer p s
  Granted (deleting p) s = Unit {0}
  Granted (releasing h) s = h ≢ this
  Granted (exiting m p) s = owner m ≡ p

  -- Whatever is added, deleted, released or exits, where the runtime makes fresh monitors and tells the
  -- process of each, the maps stay linked: no key stands twice, and each process is mapped to a monitor of
  -- its own that is there.
  pub change-IsLinked :
      (c : Change) (s : Monitors) → Granted c s → IsLinked owner s → IsLinked owner (change c s)
  unfolding change
  change-IsLinked (adding answer p h) s g v = add_mon-IsLinked owner answer p h s g v
  change-IsLinked (deleting p) s g v = del_mon-IsLinked owner p s v
  change-IsLinked (releasing h) s g v = (del_mons-Released owner this h s g v).linked
  change-IsLinked (exiting m p) s g v = process_exit-IsLinked owner m p s g v

-- Two handlers have a process monitored that was not before, and then one of them, which may be the second,
-- has done with it: it is the first one's monitor that goes, so nobody tells the first of the exit.
pub del_mon-first :
    (m n p h g : ℕ) (s : Monitors)
    → m ≢ n
    → lookup p s.proc_mon_map ≡ none
    → lookup m s.mon_map ≡ none
    → lookup n s.mon_map ≡ none
    → let s' = (del_mon p (add_mon (some n) p g (add_mon (some m) p h s).1).1).0 in
      (lookup m s'.mon_map ≡ none) × (lookup n s'.mon_map ≡ some g)
unfolding del_mon add_mon insert lookup
del_mon-first m n p h g s ne absent fm fn =
    let self = (==_iff p p).1 refl in
    let mons = (n, g) ∷ (m, h) ∷ s.mon_map in
    rw (absent, fm, self, ne→== m n ne, fn, self)
      (lookup-erase_self m mons, lookup-erase_ne m n mons ne ∙ rw ((==_iff n n).1 refl) refl)
