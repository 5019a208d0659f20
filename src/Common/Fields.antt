-- ===== src/Common/Fields.antt =====
-- Text that a separator divides: the lines of a file, and the fields of a line.
use Prim.Native.Nat.{ℕ, ◌<◌}
use mathlib.Core.Path.{◌≡◌, refl}
use mathlib.Core.Logic.{◌⊎◌}
use mathlib.Core.Bool.{true, false}
use mathlib.Core.List.{List, [], ◌∷◌, ◌++◌}
use native.Mathlib.Omega.{arith}
use rsd_mp.Common.Tests.{◌==◌, if◌then◌else◌}
use rsd_mp.Common.Lists.{All}
use rsd_mp.Common.Text.{Chars, IsHex}
use rsd_mp.Common.Strtoul.{hex_value?-bounds}

-- A character in front of the first field.
unfoldable pub before_first : ℕ → List Chars → List Chars
before_first c [] = (c ∷ []) ∷ []
before_first c (f ∷ fs) = (c ∷ f) ∷ fs

unfoldable pub fields : ℕ → Chars → List Chars
unfolding before_first
fields sep [] = [] ∷ []
fields sep (c ∷ cs) =
    let rest = fields sep cs in if c == sep then [] ∷ rest else before_first c rest

abbrev pub IsField : ℕ → Chars → Type 0
IsField sep = All (λ c. (c == sep) ≡ false)

separated : (sep : ℕ) → (sep == sep) ≡ true
separated sep = ground arith

pub fields_first :
    (sep : ℕ) (f cs : Chars) → IsField sep f → fields sep (f ++ (sep ∷ cs)) ≡ f ∷ fields sep cs
unfolding fields
fields_first sep [] cs h = let e = separated sep in rw e refl
fields_first sep (c ∷ f) cs (e, h) = let ih = fields_first sep f cs h in rw (e, ih) refl

pub fields_last : (sep : ℕ) (f : Chars) → IsField sep f → fields sep f ≡ f ∷ []
unfolding fields
fields_last sep [] h = refl
fields_last sep (c ∷ f) (e, h) = let ih = fields_last sep f h in rw (e, ih) refl

-- A separator that lies below or above the hexadecimal digits.
pub IsHex-IsField :
    (sep : ℕ) (cs : Chars) → (sep < b'0') ⊎ (b'f' < sep) → All IsHex cs → IsField sep cs
IsHex-IsField sep [] far h = tt
IsHex-IsField sep (c ∷ cs) far ((d, e), h) = (other, IsHex-IsField sep cs far h)
  where
    other : (c == sep) ≡ false
    other = let b = hex_value?-bounds c d e in ground arith
