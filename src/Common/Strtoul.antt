-- ===== src/Common/Strtoul.antt =====
-- What `strtoul` with base 16 reads: laws of the model in `Text`.
use Prim.Native.Nat.{ℕ, ◌+◌, ◌*◌, ◌^◌, ◌≤◌, ◌<◌}
use mathlib.Core.Path.{◌≡◌, refl}
use mathlib.Core.List.{[], ◌∷◌, ◌++◌}
use mathlib.Core.Option.{none, some}
use native.Mathlib.Nat.{pow-suc}
use native.Mathlib.Omega.{arith}
use rsd_mp.Common.Lists.{All, length}
use rsd_mp.Common.Text.{Chars, hex_value?, scan_hex, saturate, strtoul16, IsHex}

pub hex_value?-bounds : (c d : ℕ) → hex_value? c ≡ some d → (d < 16) × (b'0' ≤ c) × (c ≤ b'f')
unfolding hex_value?
hex_value?-bounds c d h = ground arith

pub scan_hex-some :
    (c d : ℕ) (cs : Chars) (acc : ℕ)
    → hex_value? c ≡ some d
    → scan_hex (c ∷ cs) acc ≡ scan_hex cs (acc * 16 + d)
unfolding scan_hex
scan_hex-some c d cs acc h = rw (h, scan_hex)

pub scan_hex-none :
    (c : ℕ) (cs : Chars) (acc : ℕ) → hex_value? c ≡ none → scan_hex (c ∷ cs) acc ≡ acc
unfolding scan_hex
scan_hex-none c cs acc h = rw (h, scan_hex)

pub scan_hex-append :
    (u v : Chars) (acc : ℕ) → All IsHex u → scan_hex (u ++ v) acc ≡ scan_hex v (scan_hex u acc)
scan_hex-append [] v acc h = unfold scan_hex in refl
scan_hex-append (c ∷ u) v acc ((d, e), h) =
    rw (scan_hex-some c d (u ++ v) acc e, scan_hex-some c d u acc e)
      (scan_hex-append u v (acc * 16 + d) h)

digit_bound : (acc d p s : ℕ) → d < 16 → s < (acc * 16 + d + 1) * p → s < (acc + 1) * (p * 16)
digit_bound acc d p s h k =
    let le : acc * 16 + d + 1 ≤ (acc + 1) * 16 = omega arith in
    let m : (acc * 16 + d + 1) * p ≤ ((acc + 1) * 16) * p = grind arith in omega arith

pub scan_hex-lt : (u : Chars) (acc : ℕ) → All IsHex u → scan_hex u acc < (acc + 1) * 16 ^ length u
scan_hex-lt [] acc h = unfold scan_hex in omega arith
scan_hex-lt (c ∷ u) acc ((d, e), h) =
    rw (scan_hex-some c d u acc e, pow-suc 16 (length u))
      (digit_bound acc d (16 ^ length u) _ (hex_value?-bounds c d e).0
        (scan_hex-lt u (acc * 16 + d) h))

pub strtoul16-hex :
    (w b c : ℕ) (cs : Chars)
    → IsHex b
    → IsHex c
    → strtoul16 w (b ∷ c ∷ cs) ≡ saturate w (scan_hex (b ∷ c ∷ cs) 0)
unfolding strtoul16
strtoul16-hex w b c cs (d, e) (d', e') =
    ground (arith, hex_value?-bounds b d e, hex_value?-bounds c d' e')

pub strtoul16_digits :
    (w : ℕ) (s : Chars) → All IsHex s → 2 ≤ length s → strtoul16 w s ≡ saturate w (scan_hex s 0)
strtoul16_digits w [] h le = absurd (omega arith)
strtoul16_digits w (b ∷ []) h le = absurd (omega arith)
strtoul16_digits w (b ∷ c ∷ cs) h le = strtoul16-hex w b c cs h.0 h.1.0

pub strtoul16_prefixed :
    (w : ℕ) (cs : Chars) → strtoul16 w (b'0' ∷ b'x' ∷ cs) ≡ saturate w (scan_hex cs 0)
unfolding strtoul16
strtoul16_prefixed w cs = refl

pub saturate_fits : (w v : ℕ) → v < 2 ^ w → saturate w v ≡ v
unfolding saturate
saturate_fits w v h = ground arith
