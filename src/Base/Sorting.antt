-- ===== src/Base/Sorting.antt =====
-- std::sort by a key that is a string. The result is determined only where the keys are distinct,
-- and so is the theorem that the order of the input does not matter.
use mathlib.Core.Path.{◌≡◌, refl, sym, ◌∙◌, ap₂, subst}
use mathlib.Core.Logic.{◌≢◌, inl, inr, ◌↔◌}
use mathlib.Core.Bool.{true, false}
use mathlib.Core.List.{List, [], ◌∷◌, map, Perm, Permᴰ, Mem, Nodup, Nodup-cons, mem-cons_self}
use mathlib.Core.List.Permᴰ
use mathlib.Core.Logic.{∥∥₁_elim}
use mathlib.Core.List.Perm
use native.Mathlib.Omega.{arith}
use custom_game_launcher_bac.Base.Tests.{if◌then◌else◌, Bool-cases}
use custom_game_launcher_bac.Base.Lists.{All}
use custom_game_launcher_bac.Base.ByteStrings.{
  Bytes, lt_bytes, lt_bytes_trans, lt_bytes_total, lt_bytes_irrefl,
}

module _ {ℓ} {A : Type ℓ} (key : A → Bytes) where
  unfoldable pub insert_by : A → List A → List A
  insert_by x [] = x ∷ []
  insert_by x (y ∷ ys) = if lt_bytes (key y) (key x) then y ∷ insert_by x ys else x ∷ y ∷ ys

  unfoldable pub sort_by : List A → List A
  unfolding insert_by
  sort_by [] = []
  sort_by (x ∷ xs) = insert_by x (sort_by xs)

  insert_by-perm : (x : A) (xs : List A) → Perm (insert_by x xs) (x ∷ xs)
  unfolding insert_by
  insert_by-perm x [] = Perm.refl (x ∷ [])
  insert_by-perm x (y ∷ ys) = elim (Bool-cases (lt_bytes (key y) (key x))) [
    | inl e ↦ rw e (Perm.trans (Perm.cons y (insert_by-perm x ys)) (Perm.swap x y ys))
    | inr e ↦ rw e (Perm.refl (x ∷ y ∷ ys))
  ]

  pub sort_by-perm : (xs : List A) → Perm (sort_by xs) xs
  unfolding sort_by
  sort_by-perm [] = Perm.refl []
  sort_by-perm (x ∷ xs) = Perm.trans (insert_by-perm x (sort_by xs)) (Perm.cons x (sort_by-perm xs))

  pub mem-sort_by : (x : A) (xs : List A) → Mem x (sort_by xs) ↔ Mem x xs
  mem-sort_by x xs = Perm.mem_iff (sort_by-perm xs)

module _ {ℓ κ} {A : Type ℓ} (key : A → Bytes) (P : A → Type κ) where
  All-insert_by : (x : A) (xs : List A) → P x → All P xs → All P (insert_by key x xs)
  unfolding insert_by
  All-insert_by x [] h k = (h, tt)
  All-insert_by x (y ∷ ys) h k = elim (Bool-cases (lt_bytes (key y) (key x))) [
    | inl e ↦ rw e (k.0, All-insert_by x ys h k.1)
    | inr e ↦ rw e (h, k)
  ]

  pub All-sort_by : (xs : List A) → All P xs → All P (sort_by key xs)
  unfolding sort_by
  All-sort_by [] h = tt
  All-sort_by (x ∷ xs) h = All-insert_by x (sort_by key xs) h.0 (All-sort_by xs h.1)

lt_bytes_asymm : (a b : Bytes) → lt_bytes a b ≡ true → lt_bytes b a ≡ false
lt_bytes_asymm a b h = ground (arith, lt_bytes_trans a b a, lt_bytes_irrefl a)

module _ {ℓ} {A : Type ℓ} (key : A → Bytes) where
  insert_by_ordered :
      (x y : A) (zs : List A)
      → lt_bytes (key x) (key y) ≡ true
      → insert_by key x (insert_by key y zs) ≡ insert_by key y (insert_by key x zs)
  unfolding insert_by
  insert_by_ordered x y [] h = ground (arith, lt_bytes_asymm (key x) (key y))
  insert_by_ordered x y (z ∷ zs) h = ground (
    arith,
    lt_bytes_asymm (key x) (key y),
    lt_bytes_trans (key z) (key x) (key y),
    insert_by_ordered x y zs h,
  )

  insert_by_comm :
      (x y : A) (zs : List A)
      → key x ≢ key y
      → insert_by key x (insert_by key y zs) ≡ insert_by key y (insert_by key x zs)
  insert_by_comm x y zs h = elim (lt_bytes_total (key x) (key y) h) [
    | inl lt ↦ insert_by_ordered x y zs lt
    | inr gt ↦ sym (insert_by_ordered y x zs gt)
  ]

  sort_by-permᴰ :
      {xs ys : List A} → Permᴰ xs ys → Nodup (map key xs) → sort_by key xs ≡ sort_by key ys
  unfolding sort_by
  sort_by-permᴰ Permᴰ.nil d = refl
  sort_by-permᴰ (Permᴰ.cons e p) d = ap₂ (insert_by key) e (sort_by-permᴰ p (Nodup-cons.0 d).1)
  sort_by-permᴰ (Permᴰ.swap {a = a} {b = b} {l = l} e f) d =
      insert_by_comm a b (sort_by key l) (λ same.
        (Nodup-cons.0 d).0 (subst (λ k. Mem k (key b ∷ map key l)) (sym same) mem-cons_self))
      ∙ ap₂ (λ x y. insert_by key x (insert_by key y (sort_by key l))) f e
  sort_by-permᴰ (Permᴰ.trans p q) d =
      sort_by-permᴰ p d ∙ sort_by-permᴰ q (Perm.nodup ∣ Permᴰ.map key p ∣₁ d)

  -- Where the keys differ, the sorted list does not depend on the order of the input.
  pub sort_by-eq_of_perm :
      IsSet A → (xs ys : List A) → Perm xs ys → Nodup (map key xs) → sort_by key xs ≡ sort_by key ys
  sort_by-eq_of_perm set xs ys p d = ∥∥₁_elim p (list_set _ _) (λ q. sort_by-permᴰ q d)
    where
      list_set : IsSet (List A)
      list_set = hlevel set
