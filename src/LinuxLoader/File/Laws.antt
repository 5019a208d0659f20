-- ===== src/LinuxLoader/File/Laws.antt =====
-- loader.c: what the reading of a file of whole lines leaves in `prog`.
use rsd_mp.Common.{
  ℕ, zero, suc, ◌+◌, ◌-◌, ◌*◌, ◌<◌, ◌≤◌, List, [], ◌∷◌, ◌++◌, true, false, none, some, ◌==◌, leb,
  ltb, length, set, take, drop, length-take, length-drop, take-append-drop, ◌≡◌, refl, sym, ap, ◌∙◌,
  arith, All, concat, append_assoc, append-nil, length-append, lt→ltb, le→leb, le_false,
}
use rsd_mp.Common.Text.{Chars, IsHex}
use rsd_mp.Common.Strtoul.{hex_value?-bounds}
use rsd_mp.Common.Memory.{Memory}
use rsd_mp.ProgramLoader.Line.{IsLine}
use rsd_mp.LinuxLoader.File.{
  mismatch, complete, take_line, fgets, overwrite, put_line, read_loop, read_file, uninitialised,
}

-- A line of the file as an editor writes it.
abbrev pub with_end : Chars → Chars
with_end l = l ++ b'\n' ∷ []

-- The text of a file of these lines.
abbrev pub file_of : List Chars → Chars
file_of [] = []
file_of (l ∷ ls) = with_end l ++ file_of ls

pub length-uninitialised : (n i : ℕ) (mem : Memory) → length (uninitialised n i mem) ≡ n
unfolding uninitialised
length-uninitialised zero i mem = refl
length-uninitialised (suc n) i mem = ap suc (length-uninitialised n (suc i) mem)

take_line_whole :
    (n : ℕ) (l rest : Chars)
    → All IsHex l
    → length l < n
    → take_line n (with_end l ++ rest) ≡ (with_end l, rest)
unfolding take_line
take_line_whole zero l rest h lt = absurd (omega arith)
take_line_whole (suc n) [] rest h lt = refl
take_line_whole (suc n) (c ∷ l) rest ((d, e), h) lt =
    let ih = take_line_whole n l rest h (omega arith) in rw (no_end, ih) refl
  where
    no_end : (c == b'\n') ≡ false
    no_end = let b = hex_value?-bounds c d e in ground arith

fgets_line : (l rest : Chars) → IsLine l → fgets 35 (with_end l ++ rest) ≡ some (with_end l, rest)
unfolding fgets
fgets_line [] rest (len, h) = absurd (omega arith)
fgets_line (c ∷ l) rest (len, h) = ap some (take_line_whole 34 (c ∷ l) rest h (omega arith))

-- A text that is as long as the array replaces it, whatever comes behind.
overwrite_whole : (l more old : Chars) → length l ≡ length old → overwrite (l ++ more) old ≡ l
unfolding overwrite
overwrite_whole [] [] [] e = refl
overwrite_whole [] (m ∷ more) [] e = refl
overwrite_whole [] more (o ∷ old) e = absurd (omega arith)
overwrite_whole (c ∷ l) more [] e = absurd (omega arith)
overwrite_whole (c ∷ l) more (o ∷ old) e =
    ap (λ t. c ∷ t) (overwrite_whole l more old (omega arith))

set_behind : (xs ys : Chars) (y c : ℕ) → set (xs ++ (y ∷ ys)) (length xs) c ≡ xs ++ (c ∷ ys)
set_behind [] ys y c = refl
set_behind (x ∷ xs) ys y c = ap (λ t. x ∷ t) (set_behind xs ys y c)

-- The characters of a line come behind those that have been stored before.
put_line_lem :
    (l before after more : Chars)
    → length l ≡ length after
    → put_line l (length before) (before ++ (after ++ more)) ≡ some (before ++ (l ++ more))
unfolding put_line
put_line_lem [] before [] more e = refl
put_line_lem [] before (a ∷ after) more e = absurd (omega arith)
put_line_lem (c ∷ l) before [] more e = absurd (omega arith)
put_line_lem (c ∷ l) before (a ∷ after) more e =
    rw (fits, put_line)
      (rw (set_behind before (after ++ more) a c) (
        ap (λ t. put_line l t (before ++ (c ∷ (after ++ more)))) (sym n)
        ∙ ap (put_line l (length (before ++ c ∷ [])))
            (sym (append_assoc before (c ∷ []) (after ++ more)))
        ∙ put_line_lem l (before ++ c ∷ []) after more (omega arith)
        ∙ ap some (append_assoc before (c ∷ []) (l ++ more))))
  where
    n : length (before ++ c ∷ []) ≡ suc (length before)
    n = length-append before (c ∷ []) ∙ omega arith

    fits : ltb (length before) (length (before ++ (a ∷ (after ++ more)))) ≡ true
    fits = lt→ltb _ _ (omega (arith, length-append before (a ∷ (after ++ more))))

-- A round on a line of the file: the line comes behind what has been stored before.
read_loop_round :
    (slack left i : ℕ) (l rest line before after more : Chars)
    → IsLine l
    → 2 ≤ slack
    → length line ≡ 32
    → length before ≡ i * 32
    → length after ≡ 32
    → read_loop slack (suc left) i line (before ++ (after ++ more)) (with_end l ++ rest)
      ≡ read_loop slack left (suc i) l (before ++ (l ++ more)) rest
unfolding read_loop
read_loop_round slack left i l rest line before after more h two n at room =
    rw (fgets_line l rest h, stored, read_loop)
      (rw (put, read_loop)
        (ap (λ t. read_loop slack left (suc i) t (before ++ (l ++ more)) rest) whole))
  where
    stored : leb (suc (length (with_end l))) (32 + slack) ≡ true
    stored = le→leb _ _ (omega (arith, length-append l (b'\n' ∷ []), h.0))

    whole : overwrite (with_end l ++ 0 ∷ []) line ≡ l
    whole =
        ap (λ t. overwrite t line) (append_assoc l (b'\n' ∷ []) (0 ∷ []))
        ∙ overwrite_whole l (b'\n' ∷ 0 ∷ []) line (omega (arith, h.0))

    put :
        put_line (overwrite (with_end l ++ 0 ∷ []) line) (i * 32) (before ++ (after ++ more))
        ≡ some (before ++ (l ++ more))
    put =
        ap (λ t. put_line t (i * 32) (before ++ (after ++ more))) whole
        ∙ ap (λ t. put_line l t (before ++ (after ++ more))) (sym at)
        ∙ put_line_lem l before after more (omega (arith, h.0))

-- `left` rounds and one for each line.
abbrev rounds : List Chars → ℕ → ℕ
rounds [] left = left
rounds (l ∷ ls) left = suc (rounds ls left)

rounds-eq : (ls : List Chars) (left : ℕ) → rounds ls left ≡ length ls + left
rounds-eq [] left = omega arith
rounds-eq (l ∷ ls) left = omega (arith, rounds-eq ls left)

-- The rounds on the lines of the file.
record Stored (slack left i : ℕ) (ls : List Chars) (rest line before after : Chars) : Type 0 where
  more : Chars
  line' : Chars
  i' : ℕ
  goes_on :
      read_loop slack (rounds ls left) i line (before ++ after) (file_of ls ++ rest)
      ≡ read_loop slack left i' line' (before ++ (concat ls ++ more)) rest

read_loop-Stored :
    (slack left : ℕ) (ls : List Chars) (i : ℕ) (rest line before after : Chars)
    → All IsLine ls
    → 2 ≤ slack
    → length line ≡ 32
    → length before ≡ i * 32
    → 32 * length ls ≤ length after
    → Stored slack left i ls rest line before after
read_loop-Stored slack left [] i rest line before after h two n at room = record {
  more = after;
  line' = line;
  i' = i;
  goes_on = refl;
}
read_loop-Stored slack left (l ∷ ls) i rest line before after (hl, h) two n at room =
    let head = take 32 after in
    let tail = drop 32 after in
    let next =
      read_loop-Stored slack left ls (suc i) rest l (before ++ l) tail h two hl.0
        (omega (arith, length-append before l, hl.0)) (omega (arith, length-drop 32 after)) in
    record {
      more = next.more;
      line' = next.line';
      i' = next.i';
      goes_on =
          ap
            (λ t.
              read_loop slack (suc (rounds ls left)) i line (before ++ t)
                ((with_end l ++ file_of ls) ++ rest))
            (sym (take-append-drop 32 after))
          ∙ ap (read_loop slack (suc (rounds ls left)) i line (before ++ (head ++ tail)))
              (append_assoc (with_end l) (file_of ls) rest)
          ∙ read_loop_round slack (rounds ls left) i l (file_of ls ++ rest) line before head tail hl
              two n at (length-take 32 after (omega arith))
          ∙ ap (λ t. read_loop slack (rounds ls left) (suc i) l t (file_of ls ++ rest))
              (sym (append_assoc before l tail))
          ∙ next.goes_on
          ∙ ap (λ t. read_loop slack left next.i' next.line' t rest)
              (append_assoc before l (concat ls ++ next.more)
                ∙ ap (λ t. before ++ t) (sym (append_assoc l (concat ls) next.more)));
    }

-- A file of lines of 32 digits, and anything behind them, is read line by line into `prog`, if there
-- are two bytes of slack behind `line` and `prog` has room for the lines.
pub read_file-lines :
    (slack : ℕ) (ls : List Chars) (rest line prog : Chars)
    → All IsLine ls
    → 0 < length ls
    → 2 ≤ slack
    → length line ≡ 32
    → 32 * length ls ≤ length prog
    → (more : Chars) × (read_file slack (length ls) line prog (file_of ls ++ rest)
        ≡ some (complete (concat ls ++ more)))
unfolding read_file
read_file-lines slack ls rest line prog h pos two n room =
    let s = read_loop-Stored slack 0 ls 0 rest line [] prog h two n refl room in
    let e : suc (length ls - 1) ≡ rounds ls 0 = omega (arith, rounds-eq ls 0) in
    (
      s.more,
      ap (λ t. read_loop slack t 0 line prog (file_of ls ++ rest)) e
          ∙ s.goes_on
          ∙ (unfold read_loop in refl),
    )

-- A file with fewer lines than `program_wordsize` is a mismatch.
pub read_file-short :
    (slack wordsize : ℕ) (ls : List Chars) (line prog : Chars)
    → All IsLine ls
    → length ls < wordsize
    → 2 ≤ slack
    → length line ≡ 32
    → 32 * length ls ≤ length prog
    → read_file slack wordsize line prog (file_of ls) ≡ some mismatch
unfolding read_file
read_file-short slack wordsize ls line prog h lt two n room =
    let left : ℕ = wordsize - 1 - length ls in
    let s = read_loop-Stored slack (suc left) ls 0 [] line [] prog h two n refl room in
    let e : suc (wordsize - 1) ≡ rounds ls (suc left) = omega (arith, rounds-eq ls (suc left)) in
    ap (λ t. read_loop slack t 0 line prog (file_of ls)) e
    ∙ ap (read_loop slack (rounds ls (suc left)) 0 line prog) (sym (append-nil (file_of ls)))
    ∙ s.goes_on
    ∙ (unfold read_loop fgets in refl)

-- By the standard there is no slack: a first line of 32 digits and its end do not fit `line`.
pub read_file-overflow :
    (wordsize : ℕ) (l rest line prog : Chars)
    → IsLine l
    → read_file 0 wordsize line prog (with_end l ++ rest) ≡ none
unfolding read_file read_loop
read_file-overflow wordsize l rest line prog h = rw (fgets_line l rest h, too_long, read_loop)
  where
    too_long : leb (suc (length (with_end l))) (32 + 0) ≡ false
    too_long = le_false _ _ (omega (arith, length-append l (b'\n' ∷ []), h.0))
