-- ===== src/Domain/Semver/Components.antt =====
-- src/domain/Semver.cpp: the number that a component of a version stands for.
use mathlib.Core.List.{reverse_aux, reverse-reverse}
use custom_game_launcher_bac.Base.{
  ℕ, ◌+◌, ◌-◌, ◌*◌, ◌≤◌, ◌≡◌, ◌≢◌, refl, sym, subst, ap, ap₂, ◌∙◌, inl, inr, ◌⊎◌, Bool, true, not,
  [], ◌∷◌, reverse, arith, ◌==◌, Bytes, ok, Bool-cases,
}
use custom_game_launcher_bac.Domain.Semver.{
  max_version_component, is_digit, component_loop, parse_component,
}

-- The value of digits, the last one first.
value : Bytes → ℕ
value [] = 0
value (c ∷ cs) = (c - b'0') + 10 * value cs

abbrev AllDigits : Bytes → Type 0
AllDigits [] = Unit {0}
AllDigits (c ∷ cs) = (is_digit c ≡ true) × AllDigits cs

loop_value :
    (read text : Bytes) (n : ℕ)
    → component_loop (value read) text ≡ ok n
    → n ≡ value (reverse_aux text read)
unfolding component_loop value
loop_value read [] n h = ground arith
loop_value read (c ∷ cs) n h =
    let next : value read * 10 + (c - b'0') ≡ value (c ∷ read) = omega arith in
    loop_value (c ∷ read) cs n (subst (λ v. component_loop v cs ≡ ok n) next (ground arith))

loop_digits :
    (read text : Bytes) (v n : ℕ)
    → AllDigits read
    → component_loop v text ≡ ok n
    → AllDigits (reverse_aux text read)
unfolding component_loop
loop_digits read [] v n d h = d
loop_digits read (c ∷ cs) v n d h =
    loop_digits (c ∷ read) cs (v * 10 + (c - b'0')) n (ground arith, d) (ground arith)

loop-le :
    (v : ℕ) (text : Bytes) (n : ℕ)
    → v ≤ max_version_component
    → component_loop v text ≡ ok n
    → n ≤ max_version_component
unfolding component_loop
loop-le v [] n fits h = ground arith
loop-le v (c ∷ cs) n fits h = ground (arith, loop-le (v * 10 + (c - b'0')) cs n)

-- The last of the reversed digits, the first of the text, is no zero.
top_nonzero : Bytes → Bool
top_nonzero [] = true
top_nonzero (c ∷ []) = not (c == b'0')
top_nonzero (c ∷ d ∷ cs) = top_nonzero (d ∷ cs)

value_pos :
    (c : ℕ) (cs : Bytes) → AllDigits (c ∷ cs) → top_nonzero (c ∷ cs) ≡ true → 1 ≤ value (c ∷ cs)
unfolding value top_nonzero
value_pos c [] d h = ground arith
value_pos c (e ∷ cs) d h = omega (arith, value_pos e cs d.1 h)

top_rest : (c : ℕ) (cs : Bytes) → top_nonzero (c ∷ cs) ≡ true → top_nonzero cs ≡ true
unfolding top_nonzero
top_rest c [] h = refl
top_rest c (d ∷ cs) h = h

value_inj :
    (xs ys : Bytes)
    → AllDigits xs
    → AllDigits ys
    → top_nonzero xs ≡ true
    → top_nonzero ys ≡ true
    → value xs ≡ value ys
    → xs ≡ ys
unfolding value
value_inj [] [] dx dy hx hy e = refl
value_inj [] (y ∷ ys) dx dy hx hy e = absurd (omega (arith, value_pos y ys dy hy))
value_inj (x ∷ xs) [] dx dy hx hy e = absurd (omega (arith, value_pos x xs dx hx))
value_inj (x ∷ xs) (y ∷ ys) dx dy hx hy e =
    let same_digit : x ≡ y = ground arith in
    let same_rest : value xs ≡ value ys = ground arith in
    ap₂ (λ c cs. c ∷ cs) same_digit
      (value_inj xs ys dx.1 dy.1 (top_rest x xs hx) (top_rest y ys hy) same_rest)

top-reverse_aux :
    (d : ℕ) (cs acc : Bytes) → top_nonzero (reverse_aux cs (d ∷ acc)) ≡ top_nonzero (d ∷ acc)
unfolding top_nonzero
top-reverse_aux d [] acc = refl
top-reverse_aux d (e ∷ cs) acc = top-reverse_aux e cs (d ∷ acc)

value_nil : value [] ≡ 0
unfolding value
value_nil = refl

-- A text that is accepted is a single zero, or its first digit is none.
first_digit :
    (c : ℕ) (cs : Bytes) (n : ℕ)
    → parse_component (c ∷ cs) ≡ ok n
    → (c ∷ cs ≡ b'0' ∷ []) ⊎ (top_nonzero (reverse (c ∷ cs)) ≡ true)
unfolding parse_component top_nonzero
first_digit c [] n h = elim (Bool-cases (c == b'0')) [
  | inl zero_digit ↦ inl (ground arith)
  | inr other ↦ inr (ground arith)
]
first_digit c (d ∷ cs) n h = inr (top-reverse_aux d cs (c ∷ []) ∙ ground arith)

-- What is known of a text that is accepted.
record IsNumber (text : Bytes) (n : ℕ) : Type 0 where
  worth : n ≡ value (reverse text)
  digits : AllDigits (reverse text)
  fits : n ≤ max_version_component
  nonempty : text ≢ []
  first : (text ≡ b'0' ∷ []) ⊎ (top_nonzero (reverse text) ≡ true)

accepted : (text : Bytes) (n : ℕ) → parse_component text ≡ ok n → IsNumber text n
unfolding parse_component
accepted [] n h = absurd (ground arith)
accepted (c ∷ cs) n h =
    let looped : component_loop 0 (c ∷ cs) ≡ ok n = ground arith in
    record {
      worth =
          loop_value [] (c ∷ cs) n
            (subst (λ v. component_loop v (c ∷ cs) ≡ ok n) (sym value_nil) looped);
      digits = loop_digits [] (c ∷ cs) 0 n tt looped;
      fits = loop-le 0 (c ∷ cs) n (omega arith) looped;
      nonempty = λ e. cc;
      first = first_digit c cs n h;
    }

-- A text whose first digit is no zero is worth something.
worth_something :
    (text : Bytes)
    → text ≢ []
    → AllDigits (reverse text)
    → top_nonzero (reverse text) ≡ true
    → value (reverse text) ≢ 0
unfolding top_nonzero
worth_something text nonempty digits top none_left =
    let empty : reverse text ≡ [] =
      value_inj (reverse text) [] digits tt top refl (none_left ∙ sym value_nil) in
    nonempty (sym (reverse-reverse text) ∙ ap reverse empty)

zero_worth : (text : Bytes) → text ≡ b'0' ∷ [] → value (reverse text) ≡ 0
unfolding value
zero_worth text e = rw e refl

-- Two texts that are accepted with the same value are the same text, and the value is within the
-- bound: no number has two spellings.
pub parse_component_inj :
    (a b : Bytes) (n : ℕ)
    → parse_component a ≡ ok n
    → parse_component b ≡ ok n
    → (a ≡ b) × (n ≤ max_version_component)
parse_component_inj a b n ha hb =
    let na = accepted a n ha in
    let nb = accepted b n hb in
    let same : value (reverse a) ≡ value (reverse b) = sym na.worth ∙ nb.worth in
    (
      elim na.first [
        | inl zero_a ↦ elim nb.first [
          | inl zero_b ↦ zero_a ∙ sym zero_b
          | inr top_b ↦
              absurd
                (worth_something b nb.nonempty nb.digits top_b (sym same ∙ zero_worth a zero_a))
        ]
        | inr top_a ↦ elim nb.first [
          | inl zero_b ↦
              absurd (worth_something a na.nonempty na.digits top_a (same ∙ zero_worth b zero_b))
          | inr top_b ↦
              sym (reverse-reverse a)
              ∙ ap reverse (value_inj (reverse a) (reverse b) na.digits nb.digits top_a top_b same)
              ∙ reverse-reverse b
        ]
      ],
      na.fits,
    )
