-- ===== src/TestBench/Arguments/Match.antt =====
-- TestMain.cpp, `main`: which arguments the regular expression accepts.
use rsd_mp.Common.{
  ℕ, [], ◌∷◌, true, false, Option, none, some, ◌==◌, ◌≡◌, ap, ◌∙◌, arith, Bool-cases, inl, inr, ◌↔◌,
  subst,
}
use rsd_mp.Common.Text.{Chars}
use rsd_mp.TestBench.Arguments.{is_value, with_value, after_name, match_name, match_parameter}
use rsd_mp.TestBench.Arguments.Laws.{
  IsValue, IsPlain, IsPlain-IsValue, IsValue-IsPlain, argument, match_parameter-argument,
}

-- The two parts are those of the text; the name may be empty.
IsMatch : Chars → Option (Chars × Chars) → Type 0
IsMatch arg none = Unit
IsMatch arg (some (name, value)) = (arg ≡ argument name value) × IsPlain name × IsValue value

is_end : (c : ℕ) → (c == b'=') ≡ true → c ≡ b'='
is_end c h = ground arith

with_value-IsMatch : (c : ℕ) (cs : Chars) → c ≡ b'=' → IsMatch (c ∷ cs) (with_value [] cs)
unfolding with_value IsMatch
with_value-IsMatch c cs e = elim (Bool-cases (is_value cs)) [
  | inl v ↦ rw v (ap (λ t. t ∷ cs) e, tt, v)
  | inr v ↦ rw v tt
]

after_name-IsMatch :
    (c : ℕ) (cs : Chars) (o : Option (Chars × Chars))
    → (c == b'=') ≡ false
    → IsMatch cs o
    → IsMatch (c ∷ cs) (after_name c o)
unfolding after_name IsMatch
after_name-IsMatch c cs none e m = tt
after_name-IsMatch c cs (some (name, value)) e (t, p, v) = (ap (λ x. c ∷ x) t, (e, p), v)

match_name-IsMatch : (arg : Chars) → IsMatch arg (match_name arg)
unfolding match_name
match_name-IsMatch [] = unfold IsMatch in tt
match_name-IsMatch (c ∷ cs) =
    let ih = match_name-IsMatch cs in
    elim (Bool-cases (c == b'=')) [
      | inl e ↦ rw e (with_value-IsMatch c cs (is_end c e))
      | inr e ↦ rw e (after_name-IsMatch c cs (match_name cs) e ih)
    ]

-- What the first character adds: the name is not empty.
IsFull : Chars → Option (Chars × Chars) → Type 0
IsFull arg none = Unit
IsFull arg (some (name, value)) = (arg ≡ argument name value) × IsValue name × IsValue value

after_name-IsFull :
    (c : ℕ) (cs : Chars) (o : Option (Chars × Chars))
    → (c == b'=') ≡ false
    → IsMatch cs o
    → IsFull (c ∷ cs) (after_name c o)
unfolding after_name IsMatch IsFull
after_name-IsFull c cs none e m = tt
after_name-IsFull c cs (some (name, value)) e (t, p, v) =
    (ap (λ x. c ∷ x) t, IsPlain-IsValue c name (e, p), v)

match_parameter-IsFull : (arg : Chars) → IsFull arg (match_parameter arg)
unfolding match_parameter
match_parameter-IsFull [] = unfold IsFull in tt
match_parameter-IsFull (c ∷ cs) = elim (Bool-cases (c == b'=')) [
  | inl e ↦ rw e (unfold IsFull in tt)
  | inr e ↦ rw e (after_name-IsFull c cs (match_name cs) e (match_name-IsMatch cs))
]

full_match :
    (arg name value : Chars)
    → match_parameter arg ≡ some (name, value)
    → (arg ≡ argument name value) × IsValue name × IsValue value
full_match arg name value e = unfold IsFull in subst (IsFull arg) e (match_parameter-IsFull arg)

matches_argument :
    (name value : Chars)
    → IsValue name
    → IsValue value
    → match_parameter (argument name value) ≡ some (name, value)
matches_argument [] value n v = absurd (no_name n)
  where
    no_name : is_value [] ≡ true → ⊥
    no_name h = unfold is_value in cc
matches_argument (c ∷ cs) value n v = match_parameter-argument c cs value (IsValue-IsPlain c cs n) v

-- An argument is accepted with a name and a value exactly if it is the name, `=` and the value, and
-- both are not empty and have no `=`; so an empty value or a second `=` is never accepted.
pub match_parameter-argument_iff :
    (arg name value : Chars)
    → (match_parameter arg ≡ some (name, value))
      ↔ ((arg ≡ argument name value) × IsValue name × IsValue value)
match_parameter-argument_iff arg name value =
    (full_match arg name value, λ (e, n, v). ap match_parameter e ∙ matches_argument name value n v)
