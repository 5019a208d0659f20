-- ===== src/RunSimple/Polling.antt =====
-- The polling loop ends, and it shows what RSD sends.
use rsd_mp.Common.{
  ℕ, zero, suc, ◌+◌, ◌-◌, ◌*◌, ◌%◌, ◌^◌, ◌<◌, ◌≤◌, List, [], ◌∷◌, ◌++◌, ◌≡◌, refl, sym, ap, ◌∙◌,
  arith, length, take, ◌==◌, if◌then◌else◌, append_assoc, append-nil, Bool-cases, inl, inr,
}
use rsd_mp.RunSimple.{
  Sample, Output, char, report, Poll, Round, running, stopped, show_item, poll_step, poll_loop,
}
use rsd_mp.Common.Text.{Chars}
use native.Mathlib.Decide.{ℕ_discrete}

-- All the rounds that the loop makes: ten reports, and a report takes a round more than the period.
abbrev pub all_rounds : ℕ
all_rounds = 100000010

-- The rounds made so far.
abbrev pub rounds : Poll → ℕ
rounds p = p.u * 10000001 + p.t

abbrev pub IsPoll : Poll → Type 0
IsPoll p = (p.t ≤ 10000000) × (p.u < 10)

record Counts (x : Sample) (p : Poll) : Type 0 where
  next : Poll
  goes_on : poll_step x p ≡ running next
  counted : rounds next ≡ rounds p + 1
  is_poll : IsPoll next

poll_step-Counts : (x : Sample) (p : Poll) → IsPoll p → rounds p + 1 < all_rounds → Counts x p
unfolding poll_step
poll_step-Counts x p h lt = elim (ℕ_discrete p.t 10000000) [
  | yes e ↦ record {
    next = record {
      t = 0;
      u = p.u + 1;
      out = show_item x p.out ++ report x.last_committed_pc x.committed_insn_count ∷ [];
    };
    goes_on = ground arith;
    counted = omega arith;
    is_poll = omega arith;
  }
  | no ne ↦ record {
    next = record { t = p.t + 1; u = p.u; out = show_item x p.out };
    goes_on = ground arith;
    counted = omega arith;
    is_poll = omega arith;
  }
]

-- The last round stops the loop.
poll_step_last :
    (x : Sample) (p : Poll)
    → IsPoll p
    → rounds p + 1 ≡ all_rounds
    → (p' : Poll) × (poll_step x p ≡ stopped p')
unfolding poll_step
poll_step_last x p h e = (
  record {
    t = 0;
    u = p.u + 1;
    out = show_item x p.out ++ report x.last_committed_pc x.committed_insn_count ∷ [];
  },
  ground arith,
)

poll_loop_running :
    (x : Sample) (xs : List Sample) (p p' : Poll)
    → poll_step x p ≡ running p'
    → poll_loop (x ∷ xs) p ≡ poll_loop xs p'
unfolding poll_loop
poll_loop_running x xs p p' e = rw (e, poll_loop)

poll_loop_stopped :
    (x : Sample) (xs : List Sample) (p p' : Poll)
    → poll_step x p ≡ stopped p'
    → poll_loop (x ∷ xs) p ≡ stopped p'
unfolding poll_loop
poll_loop_stopped x xs p p' e = rw (e, poll_loop)

before_end :
    (xs : List Sample) (p : Poll)
    → IsPoll p
    → rounds p + length xs < all_rounds
    → (p' : Poll) × (poll_loop xs p ≡ running p') × (rounds p' ≡ rounds p + length xs)
before_end [] p h lt = (p, unfold poll_loop in refl, omega arith)
before_end (x ∷ xs) p h lt =
    let c = poll_step-Counts x p h (omega arith) in
    let (p', e, n) = before_end xs c.next c.is_poll (omega (arith, c.counted)) in
    (p', poll_loop_running x xs p c.next c.goes_on ∙ e, omega (arith, c.counted, n))

at_end :
    (xs : List Sample) (p : Poll)
    → IsPoll p
    → all_rounds ≤ rounds p + length xs
    → (p' : Poll) × (poll_loop xs p ≡ stopped p')
at_end [] p h le = absurd (omega arith)
at_end (x ∷ xs) p h le = elim (ℕ_discrete (rounds p + 1) all_rounds) [
  | yes e ↦ let (p', last) = poll_step_last x p h e in (p', poll_loop_stopped x xs p p' last)
  | no ne ↦
      let c = poll_step-Counts x p h (omega arith) in
      let (p', e) = at_end xs c.next c.is_poll (omega (arith, c.counted)) in
      (p', poll_loop_running x xs p c.next c.goes_on ∙ e)
]

abbrev pub at_start : Poll
at_start = record { t = 0; u = 0; out = [] }

-- From its start the loop goes on for as long as it has read fewer than 100000010 samples, and the
-- counters `t` and `u` say how many rounds it has made.
pub poll_loop-runs :
    (xs : List Sample)
    → length xs < all_rounds
    → (p : Poll) × (poll_loop xs at_start ≡ running p) × (rounds p ≡ length xs)
poll_loop-runs xs lt = from_zero (before_end xs at_start (omega arith) (omega arith))
  where
    from_zero :
        (p : Poll) × (poll_loop xs at_start ≡ running p) × (rounds p ≡ 0 + length xs)
        → (p : Poll) × (poll_loop xs at_start ≡ running p) × (rounds p ≡ length xs)
    from_zero (p, e, n) = (p, e, omega arith)

-- From its start the loop ends, if there are 100000010 samples to read or more.
pub poll_loop-ends :
    (xs : List Sample) → all_rounds ≤ length xs → (p : Poll) × (poll_loop xs at_start ≡ stopped p)
poll_loop-ends xs le = at_end xs at_start (omega arith) (omega arith)

-- The characters among what is printed.
pub shown : List Output → Chars
shown [] = []
shown (char c ∷ out) = c ∷ shown out
shown (report pc n ∷ out) = shown out

-- The characters that RSD has ready in the samples.
pub items : List Sample → Chars
items [] = []
items (x ∷ xs) = let rest = items xs in if x.empty == 1 then rest else x.item % 2 ^ 8 ∷ rest

pub final : Round → Poll
final (running p) = p
final (stopped p) = p

shown-append : (a b : List Output) → shown (a ++ b) ≡ shown a ++ shown b
unfolding shown
shown-append [] b = refl
shown-append (char c ∷ a) b = ap (λ t. c ∷ t) (shown-append a b)
shown-append (report pc n ∷ a) b = shown-append a b

shown-show_item :
    (x : Sample) (out : List Output) → shown (show_item x out) ≡ shown out ++ items (x ∷ [])
unfolding show_item items shown
shown-show_item x out = elim (Bool-cases (x.empty == 1)) [
  | inl e ↦ rw e (sym (append-nil (shown out)))
  | inr e ↦ rw e (shown-append out (char (x.item % 2 ^ 8) ∷ []))
]

shown-report :
    (x : Sample) (out : List Output) (pc n : ℕ)
    → shown (show_item x out ++ report pc n ∷ []) ≡ shown out ++ items (x ∷ [])
unfolding shown
shown-report x out pc n =
    shown-append (show_item x out) (report pc n ∷ []) ∙ append-nil _ ∙ shown-show_item x out

-- Every round prints the character of its sample, if there is one, whatever else it does.
poll_step-shown :
    (x : Sample) (p : Poll) → shown (final (poll_step x p)).out ≡ shown p.out ++ items (x ∷ [])
unfolding poll_step final
poll_step-shown x p = ground (
  arith,
  shown-report x p.out x.last_committed_pc x.committed_insn_count,
  shown-show_item x p.out,
)

items-cons : (x : Sample) (xs : List Sample) → items (x ∷ xs) ≡ items (x ∷ []) ++ items xs
unfolding items
items-cons x xs = ground arith

-- The samples that the loop reads from `p` on.
abbrev seen : Poll → List Sample → List Sample
seen p xs = take (all_rounds - rounds p) xs

items_none : (n : ℕ) → items (take n []) ≡ []
unfolding items
items_none zero = refl
items_none (suc n) = refl

one_item :
    (x : Sample) (xs : List Sample) (n : ℕ) → n ≡ 1 → items (take n (x ∷ xs)) ≡ items (x ∷ [])
one_item x xs n e = rw e

next_item :
    (x : Sample) (xs : List Sample) (n m : ℕ)
    → n ≡ suc m
    → items (take n (x ∷ xs)) ≡ items (x ∷ []) ++ items (take m xs)
next_item x xs n m e = rw e (items-cons x (take m xs))

stays_running : (p : Poll) → shown (final (poll_loop [] p)).out ≡ shown p.out
unfolding poll_loop final
stays_running p = refl

shown_next :
    (x : Sample) (p : Poll) (c : Counts x p) → shown c.next.out ≡ shown p.out ++ items (x ∷ [])
unfolding final
shown_next x p c = ap (λ r. shown (final r).out) (sym c.goes_on) ∙ poll_step-shown x p

shown_loop :
    (xs : List Sample) (p : Poll)
    → IsPoll p
    → rounds p < all_rounds
    → shown (final (poll_loop xs p)).out ≡ shown p.out ++ items (seen p xs)
shown_loop [] p h lt =
    stays_running p ∙ sym (ap (λ t. shown p.out ++ t) (items_none _) ∙ append-nil (shown p.out))
shown_loop (x ∷ xs) p h lt = elim (ℕ_discrete (rounds p + 1) all_rounds) [
  | yes e ↦
      let (p', last) = poll_step_last x p h e in
      ap (λ r. shown (final r).out) (poll_loop_stopped x xs p p' last ∙ sym last)
      ∙ poll_step-shown x p
      ∙ ap (λ t. shown p.out ++ t) (sym (one_item x xs (all_rounds - rounds p) (omega arith)))
  | no ne ↦
      let c = poll_step-Counts x p h (omega arith) in
      ap (λ r. shown (final r).out) (poll_loop_running x xs p c.next c.goes_on)
      ∙ shown_loop xs c.next c.is_poll (omega (arith, c.counted))
      ∙ ap (λ t. t ++ items (seen c.next xs)) (shown_next x p c)
      ∙ append_assoc (shown p.out) (items (x ∷ [])) _
      ∙ ap (λ t. shown p.out ++ t) (sym (next_item x xs _ _ (omega (arith, c.counted))))
]

-- The characters that the loop prints are those that RSD has ready in the rounds that the loop makes,
-- in order, and none is dropped in a round that prints a report.
pub poll_loop-shown :
    (xs : List Sample) → shown (final (poll_loop xs at_start)).out ≡ items (take all_rounds xs)
unfolding shown
poll_loop-shown xs = shown_loop xs at_start (omega arith) (omega arith)
