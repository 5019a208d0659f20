-- ===== src/Dumper/Serial/Laws.antt =====
-- Dumper.h, class `SerialDumper`: what the file and the terminal hold after a run.
use rsd_mp.Common.{
  ℕ, ◌%◌, List, [], ◌∷◌, ◌++◌, Bool, true, false, some, ◌≡◌, refl, ap, ap₂, ◌∙◌, append_assoc,
  append-nil, ◌==◌, if◌then◌else◌, Bool-cases, inl, inr,
}
use rsd_mp.Common.Text.{Chars}
use rsd_mp.Dumper.Serial.{
  SerialDumper, check_signal, check_signals, open_serial, new_serial, save_byte,
}

-- The low bytes of the value that are sent, in order.
abbrev pub sent : List (Bool × ℕ) → Chars
sent [] = []
sent ((we, value) ∷ ss) = if we then value % 256 ∷ sent ss else sent ss

-- A text without its bytes 0.
abbrev pub non_zero : Chars → Chars
non_zero [] = []
non_zero (c ∷ cs) = if c == 0 then non_zero cs else c ∷ non_zero cs

state : Chars → Bool → Chars → SerialDumper
state bytes out shown = record { file = some bytes; out_to_stdout = out; stdout = shown }

shown_after : Bool → Chars → Chars → Chars
shown_after out shown more = if out then shown ++ more else shown

check_signals-state :
    (ss : List (Bool × ℕ)) (bytes shown : Chars) (out : Bool)
    → check_signals ss (state bytes out shown)
      ≡ state (bytes ++ non_zero (sent ss)) out (shown_after out shown (sent ss))
unfolding check_signals check_signal save_byte state shown_after
check_signals-state [] bytes shown true = rw (append-nil bytes, append-nil shown) refl
check_signals-state [] bytes shown false = rw (append-nil bytes) refl
check_signals-state ((false, value) ∷ ss) bytes shown true = check_signals-state ss bytes shown true
check_signals-state ((false, value) ∷ ss) bytes shown false =
    check_signals-state ss bytes shown false
check_signals-state ((true, value) ∷ ss) bytes shown true = elim (Bool-cases (value % 256 == 0)) [
  | inl e ↦ rw e (
      check_signals-state ss bytes (shown ++ value % 256 ∷ []) true
      ∙ ap (λ t. state (bytes ++ non_zero (sent ss)) true t)
          (append_assoc shown (value % 256 ∷ []) (sent ss)))
  | inr e ↦ rw e (
      check_signals-state ss (bytes ++ value % 256 ∷ []) (shown ++ value % 256 ∷ []) true
      ∙ ap₂ (λ b t. state b true t) (append_assoc bytes (value % 256 ∷ []) (non_zero (sent ss)))
          (append_assoc shown (value % 256 ∷ []) (sent ss)))
]
check_signals-state ((true, value) ∷ ss) bytes shown false = elim (Bool-cases (value % 256 == 0)) [
  | inl e ↦ rw e (check_signals-state ss bytes shown false)
  | inr e ↦ rw e (
      check_signals-state ss (bytes ++ value % 256 ∷ []) shown false
      ∙ ap (λ b. state b false shown) (append_assoc bytes (value % 256 ∷ []) (non_zero (sent ss))))
]

-- Over a run after the file is opened, the file gets the low bytes that are sent, in order and
-- without the bytes 0, and the terminal gets all of them if the dumper was made to show them and
-- nothing otherwise.
pub check_signals_lem :
    (ss : List (Bool × ℕ)) (out : Bool)
    → check_signals ss (open_serial true (new_serial out)) ≡ record {
      file = some (non_zero (sent ss));
      out_to_stdout = out;
      stdout = if out then sent ss else [];
    }
unfolding open_serial new_serial state shown_after
check_signals_lem ss true = check_signals-state ss [] [] true
check_signals_lem ss false = check_signals-state ss [] [] false
