-- ===== src/ProgramLoader/Word.antt =====
-- The transfer of the eight characters of one AXI word.
use rsd_mp.Common.{ℕ, ◌+◌, ◌-◌, ◌%◌, ◌^◌, ◌<◌, ◌≤◌, [], ◌∷◌, ◌++◌, none}
use rsd_mp.Common.{◌==◌, if◌then◌else◌, ◌≡◌, refl, ◌∙◌, arith, All, length, ap}
use rsd_mp.Common.Text.{Chars, strtoul16, saturate, scan_hex, hex_value?, IsHex}
use rsd_mp.Common.Strtoul.{
  scan_hex-append, scan_hex-lt, scan_hex-none, saturate_fits, strtoul16_prefixed,
}
use rsd_mp.Common.Memory.{Memory, store}
use rsd_mp.ProgramLoader.{Cursor, send, transfer_loop}

-- Eight characters.
pub record Word : Type 0 where
  pub c0 : ℕ
  pub c1 : ℕ
  pub c2 : ℕ
  pub c3 : ℕ
  pub c4 : ℕ
  pub c5 : ℕ
  pub c6 : ℕ
  pub c7 : ℕ

abbrev pub chars : Word → Chars
chars w = w.c0 ∷ w.c1 ∷ w.c2 ∷ w.c3 ∷ w.c4 ∷ w.c5 ∷ w.c6 ∷ w.c7 ∷ []

pub to_word : (u : Chars) → length u ≡ 8 → (w : Word) × (u ≡ chars w)
to_word [] e = absurd (omega arith)
to_word (a ∷ []) e = absurd (omega arith)
to_word (a ∷ b ∷ []) e = absurd (omega arith)
to_word (a ∷ b ∷ c ∷ []) e = absurd (omega arith)
to_word (a ∷ b ∷ c ∷ d ∷ []) e = absurd (omega arith)
to_word (a ∷ b ∷ c ∷ d ∷ f ∷ []) e = absurd (omega arith)
to_word (a ∷ b ∷ c ∷ d ∷ f ∷ g ∷ []) e = absurd (omega arith)
to_word (a ∷ b ∷ c ∷ d ∷ f ∷ g ∷ h ∷ []) e = absurd (omega arith)
to_word (a ∷ b ∷ c ∷ d ∷ f ∷ g ∷ h ∷ i ∷ []) e =
    (record { c0 = a; c1 = b; c2 = c; c3 = d; c4 = f; c5 = g; c6 = h; c7 = i }, refl)
to_word (a ∷ b ∷ c ∷ d ∷ f ∷ g ∷ h ∷ i ∷ j ∷ u) e = absurd (omega arith)

-- The cursor before the first character of a word; `v` is what `val` holds behind its prefix.
abbrev pub at_word : Word → ℕ → ℕ → Memory → Cursor
at_word v k offset mem = record {
  i = 2;
  k = k;
  offset = offset;
  val = b'0' ∷ b'x' ∷ chars v;
  mem = mem;
}

-- The text behind the array ends the number at once.
abbrev pub EndsNumber : Chars → Type 0
EndsNumber [] = Unit
EndsNumber (c ∷ cs) = hex_value? c ≡ none

-- The number that eight digits spell.
unfoldable pub word_value : Word → ℕ
word_value w = scan_hex (chars w) 0

pub word_value-lt : (w : Word) → All IsHex (chars w) → word_value w < 2 ^ 32
unfolding word_value
word_value-lt w h = scan_hex-lt (chars w) 0 h

scan_hex_end : (behind : Chars) (acc : ℕ) → EndsNumber behind → scan_hex behind acc ≡ acc
scan_hex_end [] acc h = unfold scan_hex in refl
scan_hex_end (c ∷ cs) acc h = scan_hex-none c cs acc h

-- What `strtoul` reads from `val`: the eight digits, and the digits that happen to stand behind.
pub sent_value : Word → Chars → ℕ
sent_value w behind = strtoul16 32 (b'0' ∷ b'x' ∷ (chars w ++ behind)) % 2 ^ 32

pub sent_value_raw :
    (w : Word) (behind : Chars)
    → All IsHex (chars w)
    → sent_value w behind ≡ saturate 32 (scan_hex behind (word_value w)) % 2 ^ 32
unfolding sent_value word_value
sent_value_raw w behind h =
    ap (λ (t : ℕ). t % 2 ^ 32)
      (strtoul16_prefixed 32 (chars w ++ behind)
        ∙ ap (saturate 32) (scan_hex-append (chars w) behind 0 h))

pub sent_value-eq :
    (w : Word) (behind : Chars)
    → All IsHex (chars w)
    → EndsNumber behind
    → sent_value w behind ≡ word_value w
sent_value-eq w behind h e =
    sent_value_raw w behind h
    ∙ ap (λ (t : ℕ). saturate 32 t % 2 ^ 32) (scan_hex_end behind (word_value w) e)
    ∙ ap (λ (t : ℕ). t % 2 ^ 32) (saturate_fits 32 (word_value w) (word_value-lt w h))
    ∙ omega (arith, word_value-lt w h)

module _ (behind : Chars) (charsize : ℕ) where
  transfer_step :
      (j rc : ℕ) (prog : Chars) (s : Cursor)
      → j < charsize
      → transfer_loop behind charsize j (rc ∷ prog) s
        ≡ transfer_loop behind charsize (j + 1) prog (send behind rc s)
  unfolding transfer_loop
  transfer_step j rc prog s lt = ground arith

  -- All eight characters: the memory gets what `strtoul` reads from the array and behind it.
  pub transfer_word :
      (j : ℕ) (w v : Word) (rest : Chars) (k offset : ℕ) (mem : Memory)
      → j + 8 ≤ charsize
      → transfer_loop behind charsize j (chars w ++ rest) (at_word v k offset mem)
        ≡ transfer_loop behind charsize (j + 8) rest (
            at_word w
              (if k == 0 then 3 else k - 1)
              (if k == 0 then offset + 4 else offset)
              (store mem (offset + k) (sent_value w behind)))
  unfolding send sent_value
  transfer_word j w v rest k offset mem le =
      transfer_step j w.c0 _ _ (omega arith)
      ∙ transfer_step (j + 1) w.c1 _ _ (omega arith)
      ∙ transfer_step (j + 1 + 1) w.c2 _ _ (omega arith)
      ∙ transfer_step (j + 1 + 1 + 1) w.c3 _ _ (omega arith)
      ∙ transfer_step (j + 1 + 1 + 1 + 1) w.c4 _ _ (omega arith)
      ∙ transfer_step (j + 1 + 1 + 1 + 1 + 1) w.c5 _ _ (omega arith)
      ∙ transfer_step (j + 1 + 1 + 1 + 1 + 1 + 1) w.c6 _ _ (omega arith)
      ∙ transfer_step (j + 1 + 1 + 1 + 1 + 1 + 1 + 1) w.c7 _ _ (omega arith)
      ∙ ap (λ (t : ℕ). transfer_loop behind charsize t rest after) eight
    where
      after : Cursor
      after =
          at_word w (if k == 0 then 3 else k - 1) (if k == 0 then offset + 4 else offset)
            (store mem (offset + k) (sent_value w behind))

      eight : j + 1 + 1 + 1 + 1 + 1 + 1 + 1 + 1 ≡ j + 8
      eight = omega arith
