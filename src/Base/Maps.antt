-- ===== src/Base/Maps.antt =====
-- `std::map` over numbers as a list of pairs. `insert` leaves a key that is there, as the map's does.
use Prim.Native.Nat.{ℕ}
use mathlib.Core.Path.{◌≡◌, refl, ap}
use mathlib.Core.Logic.{◌≢◌, ◌⊎◌, inl, inr}
use mathlib.Core.Option.{Option, none, some}
use mathlib.Core.List.{List, [], ◌∷◌}
use native.Mathlib.Omega.{arith}
use gen_utp.Base.Tests.{◌==◌, ==_iff, ne→==, if◌then◌else◌, Bool-cases, Option-cases}

module _ {ℓ} {V : Type ℓ} where
  unfoldable pub lookup : ℕ → List (ℕ × V) → Option V
  lookup k [] = none
  lookup k ((k', v) ∷ m) = if k' == k then some v else lookup k m

  abbrev pub if_absent : Option V → List (ℕ × V) → List (ℕ × V) → List (ℕ × V)
  if_absent none added same = added
  if_absent (some v) added same = same

  unfoldable pub insert : ℕ → V → List (ℕ × V) → List (ℕ × V)
  unfolding lookup
  insert k v m = if_absent (lookup k m) ((k, v) ∷ m) m

  unfoldable pub erase : ℕ → List (ℕ × V) → List (ℕ × V)
  erase k [] = []
  erase k ((k', v) ∷ m) = let rest = erase k m in if k' == k then rest else (k', v) ∷ rest

  pub lookup-insert_self :
      (k : ℕ) (v : V) (m : List (ℕ × V)) → lookup k m ≡ none → lookup k (insert k v m) ≡ some v
  unfolding insert lookup
  lookup-insert_self k v m h = rw (h, (==_iff k k).1 refl) refl

  pub lookup-insert_ne :
      (k j : ℕ) (v : V) (m : List (ℕ × V)) → k ≢ j → lookup j (insert k v m) ≡ lookup j m
  unfolding insert lookup
  lookup-insert_ne k j v m h = elim (Option-cases (lookup k m)) [
    | inl absent ↦ rw absent (rw (ne→== k j h) refl)
    | inr (v', present) ↦ rw present refl
  ]

  pub lookup-erase_self : (k : ℕ) (m : List (ℕ × V)) → lookup k (erase k m) ≡ none
  unfolding erase lookup
  lookup-erase_self k [] = refl
  lookup-erase_self k ((k', v) ∷ m) = let ih = lookup-erase_self k m in ground (arith, ih)

  pub lookup-erase_ne : (k j : ℕ) (m : List (ℕ × V)) → k ≢ j → lookup j (erase k m) ≡ lookup j m
  unfolding erase lookup
  lookup-erase_ne k j [] h = refl
  lookup-erase_ne k j ((k', v) ∷ m) h = let ih = lookup-erase_ne k j m h in ground (arith, ih)

  -- No key stands twice, as in every `std::map`.
  abbrev pub Distinct : List (ℕ × V) → Type ℓ
  Distinct [] = Unit
  Distinct (e ∷ m) = (lookup e.0 m ≡ none) × Distinct m

  pub insert-Distinct : (k : ℕ) (v : V) (m : List (ℕ × V)) → Distinct m → Distinct (insert k v m)
  unfolding insert
  insert-Distinct k v m d = elim (Option-cases (lookup k m)) [
    | inl absent ↦ rw absent (absent, d)
    | inr (v', present) ↦ rw present d
  ]

  pub erase_absent : (k : ℕ) (m : List (ℕ × V)) → lookup k m ≡ none → erase k m ≡ m
  unfolding erase lookup
  erase_absent k [] h = refl
  erase_absent k ((k', v) ∷ m) h = elim (Bool-cases (k' == k)) [
    | inl same ↦ cc (rw same at h)
    | inr ne ↦ rw ne (ap (λ r. (k', v) ∷ r) (erase_absent k m (rw ne at h)))
  ]

  lookup-erase_stays :
      (k j : ℕ) (m : List (ℕ × V)) → lookup j m ≡ none → lookup j (erase k m) ≡ none
  unfolding erase lookup
  lookup-erase_stays k j [] h = refl
  lookup-erase_stays k j ((k', v) ∷ m) h = elim (Bool-cases (k' == j)) [
    | inl same ↦ cc (rw same at h)
    | inr ne ↦
        let ih = lookup-erase_stays k j m (rw ne at h) in
        elim (Bool-cases (k' == k)) [ inl gone ↦ rw gone ih | inr stays ↦ rw stays (rw ne ih) ]
  ]

  pub erase-Distinct : (k : ℕ) (m : List (ℕ × V)) → Distinct m → Distinct (erase k m)
  unfolding erase
  erase-Distinct k [] d = tt
  erase-Distinct k ((k', v) ∷ m) (h, d) = elim (Bool-cases (k' == k)) [
    | inl same ↦ rw same (erase-Distinct k m d)
    | inr ne ↦ rw ne (lookup-erase_stays k k' m h, erase-Distinct k m d)
  ]

  -- What is found after an insertion was inserted or was there.
  pub lookup-insert_cases :
      (k j : ℕ) (v w : V) (m : List (ℕ × V))
      → lookup j (insert k v m) ≡ some w
      → ((k ≡ j) × (v ≡ w)) ⊎ (lookup j m ≡ some w)
  unfolding insert lookup
  lookup-insert_cases k j v w m h = elim (Option-cases (lookup k m)) [
    | inr (u, present) ↦ inr (rw present at h)
    | inl absent ↦ elim (Bool-cases (k == j)) [
      | inl same ↦ inl ((==_iff k j).0 same, cc (rw (absent, same) at h))
      | inr ne ↦ inr (rw (absent, ne) at h)
    ]
  ]
