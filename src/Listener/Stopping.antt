-- ===== src/Listener/Stopping.antt =====
-- A listener that is stopped is deleted: the main handler has forgotten it.
use gen_utp.Base.{
  ℕ, ◌≡◌, ◌≢◌, refl, sym, subst, ◌∙◌, inl, inr, true, false, Bool-cases, Option-cases, some, ℤ,
  is_minus_one, lookup,
}
use gen_utp.Monitors.{Monitors, del_mons, process_exit}
use gen_utp.Monitors.Linked.{IsLinked}
use gen_utp.Monitors.Owners.{Released, del_mons-Released}
use gen_utp.Sockets.Defs.{set_port}
use gen_utp.Reading.Defs.{Socket}
use gen_utp.Main.Registry.{
  Registry, select, deselect, ready_input, exited, stop_input, del_monitors,
}
use gen_utp.Main.Descriptors.{same_fd, select_other, deselect_self, deselect_other}
use gen_utp.Listener.Defs.{Listener, stop}

-- Input reaches the handler at the descriptor of its socket only, and only while it is selected.
abbrev pub IsRegistered : {Q : Type 0} → ℕ → Socket Q → Registry → Type 0
IsRegistered this s m =
    (fd : ℤ) → ready_input fd m ≡ some this → (s.selected ≡ true) × (same_fd s.udp_sock fd ≡ true)

-- Neither input nor an exit is told to the handler.
abbrev pub Forgets : ℕ → Registry → Type 0
Forgets this m =
    ((fd : ℤ) → ready_input fd m ≢ some this) × ((mon proc : ℕ) → (exited mon proc m).0 ≢ some this)

unheard :
    (owner : ℕ → ℕ) (this : ℕ) (s s' : Monitors)
    → Released owner this s s'
    → (mon proc : ℕ) → (process_exit mon proc s').0 ≢ some this
unfolding process_exit
unheard owner this s s' r mon proc e = elim (Option-cases (lookup mon s'.mon_map)) [
  | inl absent ↦ cc (rw absent at e)
  | inr (g, found) ↦ let same : g ≡ this = cc (rw found at e) in (r.left mon g found).1 same
]

-- The destructor, once no input is told to the handler.
freed : ℕ → Registry → Registry
freed this x = record x { monitors = (del_mons x.this this x.monitors).0 }

freed-Forgets :
    (owner : ℕ → ℕ) (this : ℕ) (x : Registry)
    → ((fd : ℤ) → ready_input fd x ≢ some this)
    → this ≢ x.this
    → IsLinked owner x.monitors
    → Forgets this (freed this x)
unfolding freed ready_input exited
freed-Forgets owner this x silent ne v = (
  silent,
  unheard owner this x.monitors (del_mons x.this this x.monitors).0
      (del_mons-Released owner x.this this x.monitors ne v),
)

deselect-rest :
    (fd : ℤ) (m : Registry)
    → ((deselect fd m).0.this ≡ m.this) × ((deselect fd m).0.monitors ≡ m.monitors)
unfolding deselect
deselect-rest fd m = elim (Bool-cases (is_minus_one fd)) [
  | inl e ↦ rw e (refl, refl)
  | inr e ↦ rw e (refl, refl)
]

module _ {Q : Type 0} (this : ℕ) where
  -- `set_port` of a handler that nothing leads to.
  pub set_port-IsRegistered :
      (p : ℕ) (s : Socket Q) (m : Registry)
      → s.selected ≡ false
      → ((fd : ℤ) → ready_input fd m ≢ some this)
      → IsRegistered this (set_port p s).0 (select s.udp_sock this m).0
  unfolding set_port
  set_port-IsRegistered p s m off none_leads fd e = rw off (refl, leads fd e)
    where
      leads :
          (fd : ℤ)
          → ready_input fd (select s.udp_sock this m).0 ≡ some this
          → same_fd s.udp_sock fd ≡ true
      leads fd e = elim (Bool-cases (same_fd s.udp_sock fd)) [
        | inl same ↦ same
        | inr other ↦ absurd (none_leads fd (sym (select_other s.udp_sock fd this m other) ∙ e))
      ]

  quiet :
      (s : Socket Q) (m : Registry)
      → IsRegistered this s m
      → is_minus_one s.udp_sock ≡ false
      → (fd : ℤ) → ready_input fd (deselect s.udp_sock m).0 ≢ some this
  quiet s m r valid fd e = elim (Bool-cases (same_fd s.udp_sock fd)) [
    | inl same ↦ cc (deselect_self s.udp_sock fd m valid same, e)
    | inr other ↦
        let was = r fd (sym (deselect_other s.udp_sock fd m other) ∙ e) in cc (was.1, other)
  ]

  -- When a listener that is not the main handler is stopped, and so deleted, the main handler has forgotten
  -- it: it is the same main handler, and no descriptor's input and no process's exit is told to the listener
  -- any more.
  pub stop-Forgets :
      (owner : ℕ → ℕ) (l : Listener Q) (m : Registry)
      → this ≢ m.this
      → IsLinked owner m.monitors
      → IsRegistered this l.sock m
      → is_minus_one l.sock.udp_sock ≡ false
      → (m' : Registry) × ((stop this l (some m)).main ≡ some m')
        × (m'.this ≡ m.this)
        × Forgets this m'
  unfolding stop stop_input del_monitors freed
  stop-Forgets owner l m ne v r valid =
      let x = (deselect l.sock.udp_sock m).0 in
      let same = deselect-rest l.sock.udp_sock m in
      elim (Bool-cases l.sock.selected) [
        | inl on ↦ (
          freed this x,
          rw on refl,
          same.0,
          freed-Forgets owner this x (quiet l.sock m r valid) (λ e. ne (e ∙ same.0))
              (subst (λ s. IsLinked owner s) (sym same.1) v),
        )
        | inr off ↦ (
          freed this m,
          rw off refl,
          refl,
          freed-Forgets owner this m (λ fd e. cc ((r fd e).0, off)) ne v,
        )
      ]
