-- ===== src/VerilatorHelper/Get/Base.antt =====
-- The loops that the accessor macros of VerilatorHelper.h make.
use rsd_mp.Common.{ℕ, ◌+◌, List, [], ◌∷◌}
use rsd_mp.VerilatorHelper.Stage.{OpId}
use rsd_mp.VerilatorHelper.Accessors.{Accessors}

module _ {ℓ} {S : Type ℓ} where
  -- `for (auto& i : d->stage) { … index++; }`: entry `index` becomes `f index` of itself.
  unfoldable pub each : (ℕ → S → S) → ℕ → List S → List S
  each f index [] = []
  each f index (s ∷ xs) = f index s ∷ each f (index + 1) xs

  -- The loops that lack the line `index++`.
  unfoldable pub each_unstepped : (ℕ → S → S) → ℕ → List S → List S
  each_unstepped f index [] = []
  each_unstepped f index (s ∷ xs) = f index s ∷ each_unstepped f index xs

-- The two members of an identity.
unfoldable pub get_op_id : Accessors → ℕ → OpId
get_op_id h raw = record { sid = h.op_id_sid raw; mid = h.op_id_mid raw }
