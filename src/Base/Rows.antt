-- ===== src/Base/Rows.antt =====
-- Tables as lists of rows: SELECT, UPDATE and DELETE with a Boolean condition.
use Prim.Native.Nat.{ℕ, suc}
use mathlib.Core.Path.{◌≡◌, refl, ap}
use mathlib.Core.Bool.{Bool, true, false}
use mathlib.Core.Option.{Option, none, some}
use mathlib.Core.Logic.{inl, inr}
use mathlib.Core.List.{List, [], ◌∷◌, ◌++◌}
use native.Mathlib.Omega.{arith}
use custom_game_launcher_bac.Base.Tests.{if◌then◌else◌, Bool-cases}
use custom_game_launcher_bac.Base.Lists.{All, any}

module _ {ℓ} {A : Type ℓ} where
  -- SELECT … WHERE p, of which the first row is read.
  unfoldable pub find_row : (A → Bool) → List A → Option A
  find_row p [] = none
  find_row p (x ∷ xs) = if p x then some x else find_row p xs

  -- UPDATE … SET f WHERE p.
  unfoldable pub update_rows : (A → Bool) → (A → A) → List A → List A
  update_rows p f [] = []
  update_rows p f (x ∷ xs) = (if p x then f x else x) ∷ update_rows p f xs

  -- DELETE … WHERE p.
  unfoldable pub delete_rows : (A → Bool) → List A → List A
  delete_rows p [] = []
  delete_rows p (x ∷ xs) = let rest = delete_rows p xs in if p x then rest else x ∷ rest

  -- SELECT … WHERE p.
  unfoldable pub select_rows : (A → Bool) → List A → List A
  select_rows p [] = []
  select_rows p (x ∷ xs) = let rest = select_rows p xs in if p x then x ∷ rest else rest

  -- SELECT count(*) … WHERE p.
  unfoldable pub count_rows : (A → Bool) → List A → ℕ
  count_rows p [] = 0
  count_rows p (x ∷ xs) = let rest = count_rows p xs in if p x then suc rest else rest

  pub find_row_holds : (p : A → Bool) (xs : List A) (x : A) → find_row p xs ≡ some x → p x ≡ true
  unfolding find_row
  find_row_holds p [] x h = cc
  find_row_holds p (y ∷ ys) x h = elim (Bool-cases (p y)) [
    | inl hit ↦ let same : y ≡ x = ground arith in rw (← same) hit
    | inr miss ↦ find_row_holds p ys x (ground arith)
  ]

module _ {ℓ} {A : Type ℓ} where
  -- An update that does not change what is searched for.
  pub find_row-update_rows :
      (r p : A → Bool) (f : A → A) (xs : List A) (x : A)
      → ((y : A) → r (f y) ≡ r y)
      → find_row r xs ≡ some x
      → find_row r (update_rows p f xs) ≡ some (if p x then f x else x)
  unfolding find_row update_rows
  find_row-update_rows r p f [] x h found = cc
  find_row-update_rows r p f (y ∷ ys) x h found =
      ground (arith, h y, find_row-update_rows r p f ys x h)

  pub find_row-none :
      (r : A → Bool) (xs : List A) → All (λ x. r x ≡ false) xs → find_row r xs ≡ none
  unfolding find_row
  find_row-none r [] h = refl
  find_row-none r (x ∷ xs) h = rw h.0 (find_row-none r xs h.1)

  -- Where each row that meets `p` does not meet `r` once it is updated, and no other row meets `r`.
  pub All-none-update_rows :
      (r p : A → Bool) (f : A → A) (xs : List A)
      → ((x : A) → r (f x) ≡ false)
      → ((x : A) → p x ≡ false → r x ≡ false)
      → All (λ x. r x ≡ false) (update_rows p f xs)
  unfolding update_rows
  All-none-update_rows r p f [] h k = tt
  All-none-update_rows r p f (x ∷ xs) h k = elim (Bool-cases (p x)) [
    | inl hit ↦ rw hit (h x, All-none-update_rows r p f xs h k)
    | inr miss ↦ rw miss (k x miss, All-none-update_rows r p f xs h k)
  ]

module _ {ℓ κ} {A : Type ℓ} (P : A → Type κ) where
  pub All-update_rows :
      (p : A → Bool) (f : A → A) (xs : List A)
      → ((x : A) → p x ≡ true → P x → P (f x))
      → All P xs
      → All P (update_rows p f xs)
  unfolding update_rows
  All-update_rows p f [] h k = tt
  All-update_rows p f (x ∷ xs) h k = elim (Bool-cases (p x)) [
    | inl hit ↦ rw hit (h x hit k.0, All-update_rows p f xs h k.1)
    | inr miss ↦ rw miss (k.0, All-update_rows p f xs h k.1)
  ]

  pub All-delete_rows : (p : A → Bool) (xs : List A) → All P xs → All P (delete_rows p xs)
  unfolding delete_rows
  All-delete_rows p [] k = tt
  All-delete_rows p (x ∷ xs) k = elim (Bool-cases (p x)) [
    | inl hit ↦ rw hit (All-delete_rows p xs k.1)
    | inr miss ↦ rw miss (k.0, All-delete_rows p xs k.1)
  ]

  pub All-kept_rows :
      (p : A → Bool) (xs : List A) → All P xs → All (λ x. (p x ≡ false) × P x) (delete_rows p xs)
  unfolding delete_rows
  All-kept_rows p [] k = tt
  All-kept_rows p (x ∷ xs) k = elim (Bool-cases (p x)) [
    | inl hit ↦ rw hit (All-kept_rows p xs k.1)
    | inr miss ↦ rw miss ((miss, k.0), All-kept_rows p xs k.1)
  ]

  pub find_row-All : (p : A → Bool) (xs : List A) (x : A) → All P xs → find_row p xs ≡ some x → P x
  unfolding find_row
  find_row-All p [] x k h = cc
  find_row-All p (y ∷ ys) x k h = elim (Bool-cases (p y)) [
    | inl hit ↦ let same : y ≡ x = ground arith in rw (← same) k.0
    | inr miss ↦ find_row-All p ys x k.1 (ground arith)
  ]

module _ {ℓ} {A : Type ℓ} where
  -- A selection that keeps, or drops, every row that meets `r`.
  pub find_row-select_rows-kept :
      (r p : A → Bool) (xs : List A)
      → ((x : A) → r x ≡ true → p x ≡ true)
      → find_row r (select_rows p xs) ≡ find_row r xs
  unfolding find_row select_rows
  find_row-select_rows-kept r p [] h = refl
  find_row-select_rows-kept r p (x ∷ xs) h = ground (arith, h x, find_row-select_rows-kept r p xs h)

  pub find_row-select_rows-dropped :
      (r p : A → Bool) (xs : List A)
      → ((x : A) → r x ≡ true → p x ≡ false)
      → find_row r (select_rows p xs) ≡ none
  unfolding find_row select_rows
  find_row-select_rows-dropped r p [] h = refl
  find_row-select_rows-dropped r p (x ∷ xs) h =
      ground (arith, h x, find_row-select_rows-dropped r p xs h)

module _ {ℓ} {A : Type ℓ} where
  pub All-select_rows : (p : A → Bool) (xs : List A) → All (λ x. p x ≡ true) (select_rows p xs)
  unfolding select_rows
  All-select_rows p [] = tt
  All-select_rows p (x ∷ xs) = elim (Bool-cases (p x)) [
    | inl hit ↦ rw (hit, select_rows, All) (hit, All-select_rows p xs)
    | inr miss ↦ rw (miss, select_rows) (All-select_rows p xs)
  ]

  -- The row that is found for a wider condition, where it meets the narrower one.
  pub find_row_narrow :
      (r p : A → Bool) (xs : List A) (x : A)
      → ((y : A) → p y ≡ true → r y ≡ true)
      → p x ≡ true
      → find_row r xs ≡ some x
      → find_row p xs ≡ some x
  unfolding find_row
  find_row_narrow r p [] x h px found = cc
  find_row_narrow r p (y ∷ ys) x h px found = elim (Bool-cases (r y)) [
    | inl hit ↦
        let same : y ≡ x = ground arith in
        let py : p y ≡ true = rw same px in rw (py, find_row) (ap some same)
    | inr miss ↦ let rest = find_row_narrow r p ys x h px (ground arith) in ground (arith, h y)
  ]

  -- A deletion that spares every row that meets `r`.
  pub find_row-delete_rows :
      (r p : A → Bool) (xs : List A)
      → ((x : A) → r x ≡ true → p x ≡ false)
      → find_row r (delete_rows p xs) ≡ find_row r xs
  unfolding find_row delete_rows
  find_row-delete_rows r p [] h = refl
  find_row-delete_rows r p (x ∷ xs) h = ground (arith, h x, find_row-delete_rows r p xs h)

  -- A row that is found stays the one that is found where rows are added behind it, and where the
  -- deletion spares it.
  pub find_row-append :
      (r : A → Bool) (xs ys : List A) (x : A)
      → find_row r xs ≡ some x
      → find_row r (xs ++ ys) ≡ some x
  unfolding find_row
  find_row-append r [] ys x found = cc
  find_row-append r (z ∷ zs) ys x found = ground (arith, find_row-append r zs ys x)

  pub find_row-delete_rows_spared :
      (r p : A → Bool) (xs : List A) (x : A)
      → p x ≡ false
      → find_row r xs ≡ some x
      → find_row r (delete_rows p xs) ≡ some x
  unfolding find_row delete_rows
  find_row-delete_rows_spared r p [] x spared found = cc
  find_row-delete_rows_spared r p (y ∷ ys) x spared found =
      ground (arith, find_row-delete_rows_spared r p ys x spared)

  pub All-each_update {κ τ} :
      (P : A → Type κ) (Q : A → Type τ) (p : A → Bool) (f : A → A) (xs : List A)
      → ((x : A) → P x → Q (if p x then f x else x))
      → All P xs
      → All Q (update_rows p f xs)
  unfolding update_rows
  All-each_update P Q p f [] h k = tt
  All-each_update P Q p f (x ∷ xs) h k = (h x k.0, All-each_update P Q p f xs h k.1)

  -- A row that is found does not meet a condition that none meets.
  pub find_row-any :
      (r p : A → Bool) (xs : List A) (x : A)
      → any p xs ≡ false
      → find_row r xs ≡ some x
      → p x ≡ false
  unfolding find_row
  find_row-any r p [] x none_meets found = cc
  find_row-any r p (y ∷ ys) x none_meets found = elim (Bool-cases (r y)) [
    | inl hit ↦ let same : y ≡ x = ground arith in rw (← same) (ground arith)
    | inr miss ↦ find_row-any r p ys x (ground arith) (ground arith)
  ]
