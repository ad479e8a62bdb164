-- ===== src/Main/Descriptors.antt =====
-- `fdmap` is a function from descriptors to handlers.
use mathlib.Core.Path.{fun_ext}
use gen_utp.Base.{
  ℕ, ◌≡◌, ◌≢◌, refl, ap, ◌∙◌, inl, inr, Bool, true, false, Bool-cases, Option, Option-cases, some,
  none, List, [], ◌∷◌, ◌==◌, ==_iff, if◌then◌else◌, ℤ, is_minus_one, lookup, insert,
  lookup-insert_ne, lookup-erase_self, lookup-erase_ne, arith,
}
use gen_utp.Main.Registry.{Registry, fd_key, select, deselect, ready_input}

-- `starting` has the descriptor and the handler.
pub data Input : Type 0 where
  starting : ℤ → ℕ → Input
  stopping : ℤ → Input

unfoldable pub runs : List Input → Registry → Registry
unfolding select deselect
runs [] m = m
runs (starting fd h ∷ ops) m = runs ops (select fd h m).0
runs (stopping fd ∷ ops) m = runs ops (deselect fd m).0

-- Who is told of input.
abbrev Told : Type 0
Told = ℤ → Option ℕ

unfoldable pub same_fd : ℤ → ℤ → Bool
same_fd (ℤ.pos a) (ℤ.pos b) = a == b
same_fd (ℤ.negsuc a) (ℤ.negsuc b) = a == b
same_fd _ _ = false

abbrev or_else : Option ℕ → ℕ → Option ℕ
or_else none h = some h
or_else (some g) h = some g

-- The first handler of a descriptor is told until the descriptor is stopped. -1 is none, and is not stopped.
unfoldable pub told : List Input → Told → Told
unfolding same_fd is_minus_one
told [] f = f
told (starting fd h ∷ ops) f = told ops (λ x. if same_fd fd x then or_else (f x) h else f x)
told (stopping fd ∷ ops) f =
    told ops (λ x. if is_minus_one fd then f x else if same_fd fd x then none else f x)

fd_key-same : (x y : ℤ) → (fd_key x == fd_key y) ≡ same_fd x y
unfolding fd_key same_fd
fd_key-same (ℤ.pos a) (ℤ.pos b) = ground arith
fd_key-same (ℤ.pos a) (ℤ.negsuc b) = ground arith
fd_key-same (ℤ.negsuc a) (ℤ.pos b) = ground arith
fd_key-same (ℤ.negsuc a) (ℤ.negsuc b) = ground arith

apart : (x y : ℤ) → same_fd x y ≡ false → fd_key x ≢ fd_key y
apart x y h e = cc ((==_iff (fd_key x) (fd_key y)).1 e, fd_key-same x y, h)

lookup-insert_same : (k h : ℕ) (m : List (ℕ × ℕ)) → lookup k (insert k h m) ≡ or_else (lookup k m) h
unfolding insert lookup
lookup-insert_same k h m = elim (Option-cases (lookup k m)) [
  | inl absent ↦ rw (absent, (==_iff k k).1 refl) refl
  | inr (g, found) ↦ rw found (rw found refl)
]

ready_input-select :
    (fd x : ℤ) (h : ℕ) (m : Registry)
    → ready_input x (select fd h m).0
      ≡ (if same_fd fd x then or_else (ready_input x m) h else ready_input x m)
unfolding ready_input select
ready_input-select fd x h m = elim (Bool-cases (same_fd fd x)) [
  | inr ne ↦ rw ne (lookup-insert_ne (fd_key fd) (fd_key x) h m.fdmap (apart fd x ne))
  | inl e ↦
      let same : fd_key fd ≡ fd_key x = (==_iff (fd_key fd) (fd_key x)).0 (fd_key-same fd x ∙ e) in
      rw (e, same) (lookup-insert_same (fd_key x) h m.fdmap)
]

ready_input-deselect :
    (fd x : ℤ) (m : Registry)
    → ready_input x (deselect fd m).0 ≡ (
        if is_minus_one fd then ready_input x m else if same_fd fd x then none else ready_input x m)
unfolding ready_input deselect
ready_input-deselect fd x m = elim (Bool-cases (is_minus_one fd)) [
  | inl none_open ↦ rw none_open refl
  | inr open_fd ↦ rw open_fd (elim (Bool-cases (same_fd fd x)) [
    | inr ne ↦ rw ne (lookup-erase_ne (fd_key fd) (fd_key x) m.fdmap (apart fd x ne))
    | inl e ↦
        rw (e, (==_iff (fd_key fd) (fd_key x)).0 (fd_key-same fd x ∙ e))
          (lookup-erase_self (fd_key x) m.fdmap)
  ])
]

pub select_other :
    (fd x : ℤ) (h : ℕ) (m : Registry)
    → same_fd fd x ≡ false
    → ready_input x (select fd h m).0 ≡ ready_input x m
select_other fd x h m ne = ready_input-select fd x h m ∙ rw ne refl

pub deselect_self :
    (fd x : ℤ) (m : Registry)
    → is_minus_one fd ≡ false
    → same_fd fd x ≡ true
    → ready_input x (deselect fd m).0 ≡ none
deselect_self fd x m valid same = ready_input-deselect fd x m ∙ rw (valid, same) refl

pub deselect_other :
    (fd x : ℤ) (m : Registry)
    → same_fd fd x ≡ false
    → ready_input x (deselect fd m).0 ≡ ready_input x m
deselect_other fd x m ne = ready_input-deselect fd x m ∙ elim (Bool-cases (is_minus_one fd)) [
  | inl off ↦ rw off refl
  | inr valid ↦ rw (valid, ne) refl
]

module _ (x : ℤ) where
  -- Whatever is started and stopped, in any order, input on a descriptor is told to the handler that the list
  -- of the starts and stops says, as a function of descriptors: the first since the last stop.
  pub ready_input-runs :
      (ops : List Input) (m : Registry)
      → ready_input x (runs ops m) ≡ told ops (λ y. ready_input y m) x
  unfolding runs told
  ready_input-runs [] m = refl
  ready_input-runs (starting fd h ∷ ops) m =
      ready_input-runs ops (select fd h m).0
      ∙ ap (λ f. told ops f x) (fun_ext (λ y. ready_input-select fd y h m))
  ready_input-runs (stopping fd ∷ ops) m =
      ready_input-runs ops (deselect fd m).0
      ∙ ap (λ f. told ops f x) (fun_ext (λ y. ready_input-deselect fd y m))
