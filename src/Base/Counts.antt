-- ===== src/Base/Counts.antt =====
-- How many rows of a table meet a condition, before and after an update.
use Prim.Native.Nat.{◌+◌, ◌≤◌}
use mathlib.Core.Path.{◌≡◌, refl}
use mathlib.Core.Bool.{Bool, true, false, not, ◌&&◌}
use mathlib.Core.Option.{none, some}
use mathlib.Core.Logic.{inl, inr}
use mathlib.Core.List.{List, [], ◌∷◌}
use native.Mathlib.Omega.{arith}
use custom_game_launcher_bac.Base.Tests.{Bool-cases}
use custom_game_launcher_bac.Base.Lists.{All, any, length}
use custom_game_launcher_bac.Base.Rows.{find_row, update_rows, delete_rows, count_rows}

module _ {ℓ} {A : Type ℓ} where
  -- An update that makes no row meet `q` anew.
  pub count_rows-update_rows-le :
      (q p : A → Bool) (f : A → A) (xs : List A)
      → ((x : A) → q (f x) ≡ true → q x ≡ true)
      → count_rows q (update_rows p f xs) ≤ count_rows q xs
  unfolding count_rows update_rows
  count_rows-update_rows-le q p f [] h = omega arith
  count_rows-update_rows-le q p f (x ∷ xs) h =
      ground (arith, h x, count_rows-update_rows-le q p f xs h)

  -- It loses the row that is found, where that row meets `q` and is updated.
  pub count_rows-update_rows-lt :
      (q p r : A → Bool) (f : A → A) (xs : List A) (x : A)
      → find_row r xs ≡ some x
      → p x ≡ true
      → q x ≡ true
      → ((y : A) → q (f y) ≡ false)
      → count_rows q (update_rows p f xs) + 1 ≤ count_rows q xs
  unfolding count_rows update_rows find_row
  count_rows-update_rows-lt q p r f [] x found px qx h = cc
  count_rows-update_rows-lt q p r f (y ∷ ys) x found px qx h = elim (Bool-cases (r y)) [
    | inl hit ↦
        let same : y ≡ x = ground arith in
        let py : p y ≡ true = rw same px in
        let qy : q y ≡ true = rw same qx in
        ground (
          arith,
          h y,
          count_rows-update_rows-le q p f ys
              (λ (z : A) (e : q (f z) ≡ true). absurd (clash (h z) e)),
        )
    | inr miss ↦ ground (arith, h y, count_rows-update_rows-lt q p r f ys x (ground arith) px qx h)
  ]
    where
      clash : {b : Bool} → b ≡ false → b ≡ true → ⊥
      clash e k = ground arith

  -- Where every row that meets `q` is updated, none is left.
  pub count_rows-update_rows-zero :
      (q p : A → Bool) (f : A → A) (xs : List A)
      → ((x : A) → q (f x) ≡ false)
      → ((x : A) → q x ≡ true → p x ≡ true)
      → count_rows q (update_rows p f xs) ≡ 0
  unfolding count_rows update_rows
  count_rows-update_rows-zero q p f [] h k = refl
  count_rows-update_rows-zero q p f (x ∷ xs) h k =
      ground (arith, h x, k x, count_rows-update_rows-zero q p f xs h k)

  -- An update of rows that do not meet `q` before or after.
  pub count_rows-update_rows-same :
      (q p : A → Bool) (f : A → A) (xs : List A)
      → ((x : A) → p x ≡ true → q (f x) ≡ q x)
      → count_rows q (update_rows p f xs) ≡ count_rows q xs
  unfolding count_rows update_rows
  count_rows-update_rows-same q p f [] h = refl
  count_rows-update_rows-same q p f (x ∷ xs) h =
      ground (arith, h x, count_rows-update_rows-same q p f xs h)

  pub count_rows-delete_rows-le :
      (q p : A → Bool) (xs : List A) → count_rows q (delete_rows p xs) ≤ count_rows q xs
  unfolding count_rows delete_rows
  count_rows-delete_rows-le q p [] = omega arith
  count_rows-delete_rows-le q p (x ∷ xs) = ground (arith, count_rows-delete_rows-le q p xs)

  pub count_rows-delete_rows_self :
      (p : A → Bool) (xs : List A) → count_rows p (delete_rows p xs) ≡ 0
  unfolding count_rows delete_rows
  count_rows-delete_rows_self p [] = refl
  count_rows-delete_rows_self p (x ∷ xs) = ground (arith, count_rows-delete_rows_self p xs)

  pub count_rows_mono :
      (q r : A → Bool) (xs : List A)
      → ((x : A) → q x ≡ true → r x ≡ true)
      → count_rows q xs ≤ count_rows r xs
  unfolding count_rows
  count_rows_mono q r [] h = omega arith
  count_rows_mono q r (x ∷ xs) h = ground (arith, h x, count_rows_mono q r xs h)

  pub find_row-count_rows-zero :
      (q r : A → Bool) (xs : List A) (x : A)
      → count_rows q xs ≡ 0
      → find_row r xs ≡ some x
      → q x ≡ false
  unfolding count_rows find_row
  find_row-count_rows-zero q r [] x none_left found = cc
  find_row-count_rows-zero q r (y ∷ ys) x none_left found = elim (Bool-cases (r y)) [
    | inl hit ↦ let same : y ≡ x = ground arith in rw (← same) (ground arith)
    | inr miss ↦ find_row-count_rows-zero q r ys x (ground arith) (ground arith)
  ]

  pub count_rows-le-length : (q : A → Bool) (xs : List A) → count_rows q xs ≤ length xs
  unfolding count_rows
  count_rows-le-length q [] = omega arith
  count_rows-le-length q (x ∷ xs) = ground (arith, count_rows-le-length q xs)

  -- Where the count is the length, every row is counted.
  pub All-count_rows :
      (q : A → Bool) (xs : List A) → length xs ≤ count_rows q xs → All (λ x. q x ≡ true) xs
  unfolding count_rows
  All-count_rows q [] h = tt
  All-count_rows q (x ∷ xs) h = elim (Bool-cases (q x)) [
    | inl hit ↦ (hit, All-count_rows q xs (ground arith))
    | inr miss ↦ absurd (ground (arith, count_rows-le-length q xs))
  ]

  -- One row more is counted where some row meets `w`.
  pub count_rows_gains :
      (q r w : A → Bool) (xs : List A)
      → ((x : A) → q x ≡ true → r x ≡ true)
      → ((x : A) → w x ≡ true → (q x ≡ false) × (r x ≡ true))
      → any w xs ≡ true
      → count_rows q xs + 1 ≤ count_rows r xs
  unfolding count_rows
  count_rows_gains q r w [] mono new found = cc
  count_rows_gains q r w (x ∷ xs) mono new found = elim (Bool-cases (w x)) [
    | inl hit ↦
        let (before, now) = new x hit in let rest = count_rows_mono q r xs mono in ground arith
    | inr miss ↦
        let rest = count_rows_gains q r w xs mono new (ground arith) in
        let here = mono x in ground (arith, here)
  ]

  -- An update that keeps every row that meets `q`.
  pub count_rows-le-update_rows :
      (q p : A → Bool) (f : A → A) (xs : List A)
      → ((x : A) → q x ≡ true → q (f x) ≡ true)
      → count_rows q xs ≤ count_rows q (update_rows p f xs)
  unfolding count_rows update_rows
  count_rows-le-update_rows q p f [] h = omega arith
  count_rows-le-update_rows q p f (x ∷ xs) h =
      ground (arith, h x, count_rows-le-update_rows q p f xs h)

  pub count_rows-eq_of_same :
      (q r : A → Bool) (xs : List A) → ((x : A) → q x ≡ r x) → count_rows q xs ≡ count_rows r xs
  unfolding count_rows
  count_rows-eq_of_same q r [] h = refl
  count_rows-eq_of_same q r (x ∷ xs) h = ground (arith, h x, count_rows-eq_of_same q r xs h)

  pub find_row-count_rows-pos :
      (q p : A → Bool) (xs : List A) (x : A)
      → ((y : A) → q y ≡ true → p y ≡ true)
      → find_row q xs ≡ some x
      → 1 ≤ count_rows p xs
  unfolding count_rows find_row
  find_row-count_rows-pos q p [] x h found = cc
  find_row-count_rows-pos q p (y ∷ ys) x h found = elim (Bool-cases (q y)) [
    | inl hit ↦ ground (arith, h y)
    | inr miss ↦ ground (arith, find_row-count_rows-pos q p ys x h (ground arith))
  ]

  -- Where at most one row meets the key `p`, and that row is updated to one that `r` does not count,
  -- the rest is what is counted.
  update_rows-elsewhere :
      (r q p : A → Bool) (f : A → A) (xs : List A)
      → ((x : A) → q x ≡ true → p x ≡ true)
      → count_rows p xs ≡ 0
      → count_rows r (update_rows q f xs) ≤ count_rows (λ x. r x && not (p x)) xs
  unfolding count_rows update_rows
  update_rows-elsewhere r q p f [] h none_here = omega arith
  update_rows-elsewhere r q p f (x ∷ xs) h none_here =
      ground (arith, h x, update_rows-elsewhere r q p f xs h)

  pub count_rows-update_rows_unique :
      (r q p : A → Bool) (f : A → A) (xs : List A) (x : A)
      → ((y : A) → q y ≡ true → p y ≡ true)
      → ((y : A) → r (f y) ≡ false)
      → count_rows p xs ≤ 1
      → find_row q xs ≡ some x
      → count_rows r (update_rows q f xs) ≤ count_rows (λ x. r x && not (p x)) xs
  unfolding count_rows update_rows find_row
  count_rows-update_rows_unique r q p f [] x h gone unique found = cc
  count_rows-update_rows_unique r q p f (y ∷ ys) x h gone unique found = elim (Bool-cases (q y)) [
    | inl hit ↦ ground (arith, h y, gone y, update_rows-elsewhere r q p f ys h)
    | inr miss ↦
        let later : find_row q ys ≡ some x = ground arith in
        let some_later = find_row-count_rows-pos q p ys x h later in
        ground (arith, count_rows-update_rows_unique r q p f ys x h gone (ground arith) later)
  ]

  pub find_row-none_counted :
      (p : A → Bool) (xs : List A) → count_rows p xs ≡ 0 → find_row p xs ≡ none
  unfolding count_rows find_row
  find_row-none_counted p [] h = refl
  find_row-none_counted p (x ∷ xs) h = ground (arith, find_row-none_counted p xs)

  pub count_rows_none : (p : A → Bool) (xs : List A) → ((x : A) → p x ≡ false) → count_rows p xs ≡ 0
  unfolding count_rows
  count_rows_none p [] h = refl
  count_rows_none p (x ∷ xs) h = rw (h x, count_rows) (count_rows_none p xs h)
