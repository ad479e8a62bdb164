-- ===== src/Binary/Equality.antt =====
-- `Binary::operator==`: which objects are equal.
use gen_utp.Base.{
  ℕ, ◌≡◌, refl, sym, ap, ap₂, ◌↔◌, inl, inr, true, Bool-cases, some, none, List, [], ◌∷◌, length,
  ◌==◌, ==_iff,
}
use gen_utp.Binary.{Binary, same_bytes, equal, data_of}
use gen_utp.Driver.Binaries.{DrvBinaries}

pub same_bytes_iff : (xs ys : List ℕ) → (same_bytes xs ys ≡ true) ↔ (xs ≡ ys)
unfolding same_bytes
same_bytes_iff [] [] = (λ h. refl, λ h. refl)
same_bytes_iff [] (y ∷ ys) = (λ h. cc, λ h. cc)
same_bytes_iff (x ∷ xs) [] = (λ h. cc, λ h. cc)
same_bytes_iff (x ∷ xs) (y ∷ ys) = (to (same_bytes_iff xs ys), from (same_bytes_iff xs ys))
  where
    to :
        ((same_bytes xs ys ≡ true) ↔ (xs ≡ ys))
        → same_bytes (x ∷ xs) (y ∷ ys) ≡ true
        → x ∷ xs ≡ y ∷ ys
    to ih h = elim (Bool-cases (x == y)) [
      | inl e ↦ ap₂ ◌∷◌ ((==_iff x y).0 e) (ih.0 (rw e at h))
      | inr e ↦ cc (rw e at h)
    ]

    from :
        ((same_bytes xs ys ≡ true) ↔ (xs ≡ ys))
        → x ∷ xs ≡ y ∷ ys
        → same_bytes (x ∷ xs) (y ∷ ys) ≡ true
    from ih h =
        let head : x ≡ y = cc in let tail : xs ≡ ys = cc in rw ((==_iff x y).1 head, ih.1 tail) refl

module _ (rt : DrvBinaries) where
  open rt use {Store, orig_bytes}

  -- Two objects compare equal if and only if both hold nothing or what they point at is the same bytes,
  -- whichever binary of the runtime holds them.
  pub equal_iff :
      (a b : Binary) (s : Store) → (equal rt a b s ≡ true) ↔ (data_of rt a s ≡ data_of rt b s)
  unfolding equal data_of
  equal_iff none none s = (λ h. refl, λ h. refl)
  equal_iff (some c) none s = (λ h. cc, λ h. cc)
  equal_iff none (some b) s = (λ h. cc, λ h. cc)
  equal_iff (some c) (some b) s = (to, from)
    where
      to : equal rt (some c) (some b) s ≡ true → some (orig_bytes c s) ≡ some (orig_bytes b s)
      to h = elim (Bool-cases (length (orig_bytes b s) == length (orig_bytes c s))) [
        | inl e ↦ ap some ((same_bytes_iff (orig_bytes c s) (orig_bytes b s)).0 (rw e at h))
        | inr e ↦ cc (rw e at h)
      ]

      from : some (orig_bytes c s) ≡ some (orig_bytes b s) → equal rt (some c) (some b) s ≡ true
      from h =
          let same : orig_bytes c s ≡ orig_bytes b s = cc in
          let long : length (orig_bytes b s) ≡ length (orig_bytes c s) = ap length (sym same) in
          rw
            (
              (==_iff (length (orig_bytes b s)) (length (orig_bytes c s))).1 long,
              (same_bytes_iff (orig_bytes c s) (orig_bytes b s)).1 same,
            )
            refl
