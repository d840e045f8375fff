-- ===== src/Domain/Catalog/Slugs.antt =====
-- src/domain/Catalog.cpp: slugify against validateSlug.
use mathlib.Core.List.{reverse_aux, reverse-reverse}
use custom_game_launcher_bac.Base.{
  ℕ, ◌+◌, ◌-◌, ◌≤◌, ◌≡◌, refl, ap, ◌∙◌, ◌⊎◌, inl, inr, Bool, true, false, ◌&&◌, ◌||◌, not, [], ◌∷◌,
  reverse, arith, ltb, ◌==◌, length, drop, is_empty, Bytes, success, Bool-cases, &&-eq-true, suc,
  zero,
}
use custom_game_launcher_bac.Domain.Catalog.{
  is_slug_character, check_slug, validate_slug, append_character, slug_loop, drop_hyphens, shorten,
  slugify,
}

-- A slug with its last byte first: a hyphen stands only behind a letter or digit.
abbrev ends_well : Bytes → Bool
ends_well [] = false
ends_well (c ∷ cs) = is_slug_character c

good : Bytes → Bool
good [] = true
good (c ∷ cs) = (is_slug_character c || (c == b'-' && ends_well cs)) && good cs

good_nil : good [] ≡ true
unfolding good
good_nil = refl

append-good : (c : ℕ) (slug : Bytes) → good slug ≡ true → good (append_character c slug) ≡ true
unfolding good append_character is_slug_character
append-good c [] h = ground arith
append-good c (d ∷ slug) h = ground arith

loop-good : (slug title : Bytes) → good slug ≡ true → good (slug_loop slug title) ≡ true
unfolding slug_loop
loop-good slug [] h = h
loop-good slug (c ∷ cs) h = loop-good (append_character c slug) cs (append-good c slug h)

drop_hyphens-good : (slug : Bytes) → good slug ≡ true → good (drop_hyphens slug) ≡ true
unfolding good drop_hyphens
drop_hyphens-good [] h = refl
drop_hyphens-good (c ∷ cs) h = ground (arith, drop_hyphens-good cs)

drop_hyphens_ends :
    (slug : Bytes)
    → good slug ≡ true
    → (drop_hyphens slug ≡ []) ⊎ (ends_well (drop_hyphens slug) ≡ true)
unfolding good drop_hyphens
drop_hyphens_ends [] h = inl refl
drop_hyphens_ends (c ∷ cs) h = elim (Bool-cases (c == b'-')) [
  | inl hyphen ↦ rw hyphen (drop_hyphens_ends cs (&&-eq-true _ _ h).1)
  | inr other ↦ rw other (inr (ground arith))
]

drop-good : (n : ℕ) (slug : Bytes) → good slug ≡ true → good (drop n slug) ≡ true
unfolding good
drop-good zero slug h = h
drop-good (suc n) [] h = refl
drop-good (suc n) (c ∷ cs) h = drop-good n cs (&&-eq-true _ _ h).1

length-drop : (n : ℕ) (slug : Bytes) → length (drop n slug) ≡ length slug - n
length-drop zero slug = omega arith
length-drop (suc n) [] = omega arith
length-drop (suc n) (c ∷ cs) = omega (arith, length-drop n cs)

length-drop_hyphens : (slug : Bytes) → length (drop_hyphens slug) ≤ length slug
unfolding drop_hyphens
length-drop_hyphens [] = omega arith
length-drop_hyphens (c ∷ cs) = ground (arith, length-drop_hyphens cs)

length-reverse_aux : (xs acc : Bytes) → length (reverse_aux xs acc) ≡ length xs + length acc
length-reverse_aux [] acc = omega arith
length-reverse_aux (x ∷ xs) acc = omega (arith, length-reverse_aux xs (x ∷ acc))

-- The slug that is built, with its last byte first.
abbrev built : Bytes → Bytes
built title = shorten (drop_hyphens (slug_loop [] title))

shorten-fits : (slug : Bytes) → length (shorten slug) ≤ 80
unfolding shorten
shorten-fits slug =
    ground (
      arith,
      length-drop_hyphens (drop (length slug - 80) slug),
      length-drop (length slug - 80) slug,
    )

built_ends :
    (slug : Bytes)
    → good slug ≡ true
    → let s = shorten (drop_hyphens slug) in (good s ≡ true) × ((s ≡ []) ⊎ (ends_well s ≡ true))
unfolding shorten
built_ends slug h =
    let once = drop_hyphens slug in
    let kept = drop_hyphens-good slug h in
    let rest = drop (length once - 80) once in
    let rest_good = drop-good (length once - 80) once kept in
    elim (Bool-cases (ltb 80 (length once))) [
      | inl long ↦ rw long (drop_hyphens-good rest rest_good, drop_hyphens_ends rest rest_good)
      | inr fits ↦ rw fits (kept, drop_hyphens_ends slug h)
    ]

-- validateSlug reads a good slug forwards: its state is whether the last byte was no hyphen.
check_reverse :
    (slug rest : Bytes)
    → good slug ≡ true
    → check_slug true (reverse_aux slug rest) ≡ check_slug (not (ends_well slug)) rest
unfolding good check_slug
check_reverse [] rest h = refl
check_reverse (c ∷ cs) rest h = check_reverse cs (c ∷ rest) (&&-eq-true _ _ h).1 ∙ ground arith

reverse_valid :
    (slug : Bytes)
    → good slug ≡ true
    → ends_well slug ≡ true
    → length slug ≤ 80
    → validate_slug (reverse slug) ≡ success
unfolding validate_slug check_slug
reverse_valid [] h ends fits = cc
reverse_valid (c ∷ cs) h ends fits =
    let size = length-reverse_aux (c ∷ cs) [] in
    let checked = check_reverse (c ∷ cs) [] h in ground (arith, nonempty (reverse (c ∷ cs)))
  where
    nonempty : (xs : Bytes) → is_empty xs ≡ (length xs == 0)
    nonempty [] = refl
    nonempty (x ∷ xs) = ground arith

accepted_next :
    (slug : Bytes) (c : ℕ) (cs : Bytes)
    → check_slug (not (ends_well slug)) (c ∷ cs) ≡ success
    → check_slug (not (ends_well (c ∷ slug))) cs ≡ success
unfolding check_slug
accepted_next slug c cs h = ground arith

accepted_appended :
    (slug : Bytes) (c : ℕ) (cs : Bytes)
    → check_slug (not (ends_well slug)) (c ∷ cs) ≡ success
    → append_character c slug ≡ c ∷ slug
unfolding check_slug append_character is_slug_character
accepted_appended [] c cs h = ground arith
accepted_appended (d ∷ slug) c cs h = ground arith

-- A valid slug goes through the loop of slugify as it is.
loop_same :
    (slug rest : Bytes)
    → check_slug (not (ends_well slug)) rest ≡ success
    → (slug_loop slug rest ≡ reverse_aux rest slug) × (ends_well (reverse_aux rest slug) ≡ true)
unfolding check_slug slug_loop
loop_same slug [] h = (refl, ground arith)
loop_same slug (c ∷ cs) h =
    let appended = accepted_appended slug c cs h in
    let (same, ends) = loop_same (c ∷ slug) cs (accepted_next slug c cs h) in
    (ap (λ s. slug_loop s cs) appended ∙ same, ends)

drop_hyphens_same : (slug : Bytes) → ends_well slug ≡ true → drop_hyphens slug ≡ slug
unfolding drop_hyphens is_slug_character
drop_hyphens_same [] h = cc
drop_hyphens_same (c ∷ cs) h = ground arith

shorten_same : (slug : Bytes) → length slug ≤ 80 → shorten slug ≡ slug
unfolding shorten
shorten_same slug h = ground arith

slugify_same : (slug : Bytes) → validate_slug slug ≡ success → slugify slug ≡ slug
unfolding slugify validate_slug
slugify_same slug h =
    let fits : length slug ≤ 80 = ground arith in
    let checked : check_slug true slug ≡ success = ground arith in
    let (same, ends) = loop_same [] slug checked in
    let size : length (reverse slug) ≤ 80 = omega (arith, length-reverse_aux slug []) in
    ap (λ s. reverse (shorten (drop_hyphens s))) same
    ∙ ap (λ s. reverse (shorten s)) (drop_hyphens_same (reverse slug) ends)
    ∙ ap reverse (shorten_same (reverse slug) size)
    ∙ reverse-reverse slug

slugify_valid : (title : Bytes) → (slugify title ≡ []) ⊎ (validate_slug (slugify title) ≡ success)
unfolding slugify
slugify_valid title =
    let slug = slug_loop [] title in
    let (kept, ends) = built_ends slug (loop-good [] title good_nil) in
    elim ends [
      | inl empty ↦ inl (ap reverse empty)
      | inr well ↦ inr (reverse_valid (built title) kept well (shorten-fits (drop_hyphens slug)))
    ]

-- The slug that is made of a title is empty or accepted by validateSlug, and a text that validateSlug
-- accepts is the slug made of itself.
pub slugify_lem :
    (title : Bytes)
    → ((slugify title ≡ []) ⊎ (validate_slug (slugify title) ≡ success))
      × (validate_slug title ≡ success → slugify title ≡ title)
slugify_lem title = (slugify_valid title, slugify_same title)
