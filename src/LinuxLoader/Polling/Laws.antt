-- ===== src/LinuxLoader/Polling/Laws.antt =====
-- loader.c: the loop shows what RSD sends, for as long as it runs.
use rsd_mp.Common.{
  ℕ, suc, ◌+◌, ◌*◌, ◌/◌, ◌%◌, ◌^◌, ◌≤◌, List, [], ◌∷◌, ◌++◌, ◌==◌, if◌then◌else◌, length,
  append_assoc, append-nil, ◌≡◌, ◌≢◌, refl, sym, ap, ◌∙◌, arith, Bool-cases, inl, inr,
}
use rsd_mp.Common.Text.{Chars}
use rsd_mp.LinuxLoader.Polling.{
  Sample, Output, char, report, Poll, show_item, poll_step, poll_loop, report_period,
}

abbrev pub shown : List Output → Chars
shown [] = []
shown (char c ∷ out) = c ∷ shown out
shown (report a b c d ∷ out) = shown out

abbrev pub reports : List Output → ℕ
reports [] = 0
reports (char c ∷ out) = reports out
reports (report a b c d ∷ out) = suc (reports out)

-- What RSD has ready in these rounds.
abbrev pub items : List Sample → Chars
items [] = []
items (x ∷ xs) = if x.empty == 1 then items xs else x.item % 2 ^ 8 ∷ items xs

shown-append : (a b : List Output) → shown (a ++ b) ≡ shown a ++ shown b
shown-append [] b = refl
shown-append (char c ∷ a) b = ap (λ t. c ∷ t) (shown-append a b)
shown-append (report w x y z ∷ a) b = shown-append a b

reports-append : (a b : List Output) → reports (a ++ b) ≡ reports a + reports b
reports-append [] b = omega arith
reports-append (char c ∷ a) b = reports-append a b
reports-append (report w x y z ∷ a) b = omega (arith, reports-append a b)

-- The rounds that are counted.
abbrev counted : Poll → ℕ
counted p = reports p.out * 10000001 + p.t

shown-show_item :
    (x : Sample) (out : List Output) → shown (show_item x out) ≡ shown out ++ items (x ∷ [])
unfolding show_item
shown-show_item x out = elim (Bool-cases (x.empty == 1)) [
  | inl e ↦ rw (e, append-nil (shown out)) refl
  | inr e ↦ rw e (shown-append out (char (x.item % 2 ^ 8) ∷ []))
]

reports-show_item : (x : Sample) (out : List Output) → reports (show_item x out) ≡ reports out
unfolding show_item
reports-show_item x out = elim (Bool-cases (x.empty == 1)) [
  | inl e ↦ rw e refl
  | inr e ↦ rw e (reports-append out (char (x.item % 2 ^ 8) ∷ []) ∙ omega arith)
]

shown-poll_step :
    (x : Sample) (p : Poll) → shown (poll_step x p).out ≡ shown p.out ++ items (x ∷ [])
unfolding poll_step
shown-poll_step x p = elim (Bool-cases (p.t == report_period)) [
  | inl e ↦ rw e (
      shown-append (show_item x p.out) _
      ∙ append-nil (shown (show_item x p.out))
      ∙ shown-show_item x p.out)
  | inr e ↦ rw e (shown-show_item x p.out)
]

counted-poll_step :
    (x : Sample) (p : Poll)
    → p.t ≤ 10000000
    → (counted (poll_step x p) ≡ counted p + 1) × ((poll_step x p).t ≤ 10000000)
unfolding poll_step
counted-poll_step x p le = elim (Bool-cases (p.t == report_period)) [
  | inl e ↦
      let n =
        reports-append (show_item x p.out) (
          report x.last_committed_pc x.committed_insn_count x.empty_again x.program_wordsize
          ∷ []) in
      let m = reports-show_item x p.out in
      let t : p.t ≡ 10000000 = ground arith in rw e (omega (arith, n, m, t), omega arith)
  | inr e ↦
      let m = reports-show_item x p.out in
      let ne : p.t ≢ 10000000 = ground arith in rw e (omega (arith, m), omega (arith, ne))
]

items-cons : (x : Sample) (xs : List Sample) → items (x ∷ xs) ≡ items (x ∷ []) ++ items xs
items-cons x xs = elim (Bool-cases (x.empty == 1)) [ inl e ↦ rw e refl | inr e ↦ rw e refl ]

poll_loop-shown_from :
    (xs : List Sample) (p : Poll) → shown (poll_loop xs p).out ≡ shown p.out ++ items xs
unfolding poll_loop
poll_loop-shown_from [] p = sym (append-nil (shown p.out))
poll_loop-shown_from (x ∷ xs) p =
    poll_loop-shown_from xs (poll_step x p)
    ∙ ap (λ t. t ++ items xs) (shown-poll_step x p)
    ∙ append_assoc (shown p.out) (items (x ∷ [])) (items xs)
    ∙ ap (λ t. shown p.out ++ t) (sym (items-cons x xs))

poll_loop-counted_from :
    (xs : List Sample) (p : Poll)
    → p.t ≤ 10000000
    → (counted (poll_loop xs p) ≡ counted p + length xs) × ((poll_loop xs p).t ≤ 10000000)
unfolding poll_loop
poll_loop-counted_from [] p le = (omega arith, le)
poll_loop-counted_from (x ∷ xs) p le =
    let (e, le') = counted-poll_step x p le in
    let (e', le'') = poll_loop-counted_from xs (poll_step x p) le' in (omega (arith, e, e'), le'')

abbrev pub at_start : Poll
at_start = record { t = 0; out = [] }

-- However long the loop runs, it has printed every character that RSD has had ready in a round, in
-- order, by the end of that round, and it prints a report in every 10000001st round and in no other.
pub poll_loop-progress :
    (xs : List Sample)
    → (shown (poll_loop xs at_start).out ≡ items xs)
      × (reports (poll_loop xs at_start).out ≡ length xs / 10000001)
poll_loop-progress xs =
    let (e, le) = poll_loop-counted_from xs at_start (omega arith) in
    (poll_loop-shown_from xs at_start, omega (arith, e, le))
