-- ===== src/Base/ByteStrings.antt =====
-- std::string as its bytes: literals, equality, order, search.
use Prim.Native.Nat.{ℕ, ◌+◌}
use Prim.Native.Char.{code}
use Prim.Native.String.{String}
use mathlib.Core.Path.{◌≡◌, refl}
use mathlib.Core.Logic.{◌↔◌, ◌≢◌, ◌⊎◌, inl, inr}
use mathlib.Core.Bool.{Bool, true, false, ◌&&◌, ◌||◌}
use mathlib.Core.Option.{Option, none, some}
use mathlib.Core.Option
use mathlib.Core.List.{List, [], ◌∷◌}
use native.Mathlib.Omega.{arith}
use native.Mathlib.Decide.{ℕ_discrete}
use custom_game_launcher_bac.Base.Tests.{ltb, ◌==◌, if◌then◌else◌}
use custom_game_launcher_bac.Base.Lists.{any}

abbrev pub Bytes : Type 0
Bytes = List ℕ

-- A literal of the source, as its (ASCII) bytes.
abbrev pub codes : String → Bytes
codes String.[] = []
codes (String.◌∷◌ c s) = code c ∷ codes s

-- operator==.
unfoldable pub eq_bytes : Bytes → Bytes → Bool
eq_bytes [] [] = true
eq_bytes [] (y ∷ ys) = false
eq_bytes (x ∷ xs) [] = false
eq_bytes (x ∷ xs) (y ∷ ys) = x == y && eq_bytes xs ys

-- operator<, which compares unsigned bytes from the left.
unfoldable pub lt_bytes : Bytes → Bytes → Bool
lt_bytes [] [] = false
lt_bytes [] (y ∷ ys) = true
lt_bytes (x ∷ xs) [] = false
lt_bytes (x ∷ xs) (y ∷ ys) = ltb x y || (x == y && lt_bytes xs ys)

pub eq_bytes_iff : (a b : Bytes) → (eq_bytes a b ≡ true) ↔ (a ≡ b)
unfolding eq_bytes
eq_bytes_iff [] [] = (λ h. refl, λ h. refl)
eq_bytes_iff [] (y ∷ ys) = (λ h. cc, λ h. cc)
eq_bytes_iff (x ∷ xs) [] = (λ h. cc, λ h. cc)
eq_bytes_iff (x ∷ xs) (y ∷ ys) =
    (λ h. ground (arith, eq_bytes_iff xs ys), λ h. ground (arith, eq_bytes_iff xs ys))

pub eq_bytes_refl : (a : Bytes) → eq_bytes a a ≡ true
eq_bytes_refl a = (eq_bytes_iff a a).1 refl

pub eq_bytes_ne : (a b : Bytes) → a ≢ b → eq_bytes a b ≡ false
eq_bytes_ne a b h = ground (arith, eq_bytes_iff a b)

pub Bytes-discrete : Discrete Bytes
Bytes-discrete = hlevel ℕ_discrete

pub Bytes-set : IsSet Bytes
Bytes-set = hlevel

pub lt_bytes_irrefl : (a : Bytes) → lt_bytes a a ≡ false
unfolding lt_bytes
lt_bytes_irrefl [] = refl
lt_bytes_irrefl (x ∷ xs) = ground (arith, lt_bytes_irrefl xs)

pub lt_bytes_trans :
    (a b c : Bytes) → lt_bytes a b ≡ true → lt_bytes b c ≡ true → lt_bytes a c ≡ true
unfolding lt_bytes
lt_bytes_trans [] [] c h k = cc
lt_bytes_trans [] (y ∷ b) [] h k = cc
lt_bytes_trans [] (y ∷ b) (z ∷ c) h k = refl
lt_bytes_trans (x ∷ a) [] c h k = cc
lt_bytes_trans (x ∷ a) (y ∷ b) [] h k = cc
lt_bytes_trans (x ∷ a) (y ∷ b) (z ∷ c) h k = ground (arith, lt_bytes_trans a b c)

pub lt_bytes_total : (a b : Bytes) → a ≢ b → (lt_bytes a b ≡ true) ⊎ (lt_bytes b a ≡ true)
unfolding lt_bytes
lt_bytes_total [] [] h = absurd (h refl)
lt_bytes_total [] (y ∷ b) h = inl refl
lt_bytes_total (x ∷ a) [] h = inr refl
lt_bytes_total (x ∷ a) (y ∷ b) h = ground (arith, lt_bytes_total a b)

-- find(c): the position of the first occurrence.
unfoldable pub find_byte : ℕ → Bytes → Option ℕ
find_byte c [] = none
find_byte c (x ∷ xs) = if x == c then some 0 else Option.map (λ i. i + 1) (find_byte c xs)

-- find(c) != npos.
abbrev pub contains : ℕ → Bytes → Bool
contains c = any (λ x. x == c)
