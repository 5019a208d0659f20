-- ===== src/VerilatorHelper/Laws/Base.antt =====
-- The loops of the accessor macros, entry by entry.
use rsd_mp.Common.{ℕ, zero, suc, ◌+◌, List, [], ◌∷◌, some, get_elem?, ◌≡◌, ap, ◌∙◌, arith, some_eq}
use rsd_mp.VerilatorHelper.Get.{each, each_unstepped}

module _ {ℓ} {S : Type ℓ} (f : ℕ → S → S) where
  each_at :
      (k : ℕ) (xs : List S) (i : ℕ) {s : S}
      → get_elem? xs i ≡ some s
      → get_elem? (each f k xs) i ≡ some (f (k + i) s)
  unfolding each
  each_at k [] i e = cc
  each_at k (x ∷ xs) zero {s} e =
      ap some (ap (f k) (some_eq e) ∙ ap (λ (t : ℕ). f t s) (omega arith))
  each_at k (x ∷ xs) (suc i) {s} e =
      each_at (k + 1) xs i e ∙ ap (λ (t : ℕ). some (f t s)) (omega arith)

  -- A loop from index 0 gives entry `i` the value for `i`.
  pub each_entry :
      (xs : List S) (i : ℕ) {s : S}
      → get_elem? xs i ≡ some s
      → get_elem? (each f 0 xs) i ≡ some (f i s)
  each_entry xs i {s} e = each_at 0 xs i e ∙ ap (λ (t : ℕ). some (f t s)) (omega arith)

  -- Without the step of the index every entry gets the value for the first one.
  pub each_unstepped_entry :
      (k : ℕ) (xs : List S) (i : ℕ) {s : S}
      → get_elem? xs i ≡ some s
      → get_elem? (each_unstepped f k xs) i ≡ some (f k s)
  unfolding each_unstepped
  each_unstepped_entry k [] i e = cc
  each_unstepped_entry k (x ∷ xs) zero e = ap some (ap (f k) (some_eq e))
  each_unstepped_entry k (x ∷ xs) (suc i) e = each_unstepped_entry k xs i e
