-- ===== src/Common/RateLimiter/Burst.antt =====
-- src/common/RateLimiter.cpp: requests at one instant.
use custom_game_launcher_bac.Base.{
  lt→ltb, ℕ, zero, suc, ◌≡◌, ◌≤◌, ◌^◌, refl, ◌∙◌, inl, inr, true, false, List, [], ◌∷◌, some, arith,
  ltb, leb, if◌then◌else◌, ℤ, Bytes, eq_bytes, eq_bytes_iff, eq_bytes_refl, count_rows, Bool-cases,
}
use custom_game_launcher_bac.Common.RateLimiter.{
  Doubles, Limits, RateLimiter, at_least_one, apply_limits, reconfigure, refill, bucket_at,
  try_acquire,
}

-- Doubles hold the integers up to 2 ^ 53 exactly: they are compared like integers, and one is taken
-- from them like from integers. No time passes from an instant to itself.
pub record IsExact (d : Doubles) : Type 0 where
  pub less_nat : (m n : ℕ) → m ≤ 2 ^ 53 → n ≤ 2 ^ 53 → d.less (d.of_nat m) (d.of_nat n) ≡ ltb m n
  pub minus_one : (n : ℕ) → suc n ≤ 2 ^ 53 → d.minus (d.of_nat (suc n)) (d.of_nat 1) ≡ d.of_nat n
  pub no_time : (now : ℕ) → d.less (d.of_nat 0) (d.seconds_between now now) ≡ false

abbrev pub lesser : ℕ → ℕ → ℕ
lesser a b = if leb a b then a else b

-- The requests of the key that are let through, of requests that come one after another at one instant.
unfoldable pub let_through : (d : Doubles) → ℕ → Bytes → List Bytes → RateLimiter d → ℕ
unfolding try_acquire
let_through d now key [] r = 0
let_through d now key (k ∷ ks) r =
    let (acquired, after) = try_acquire d now k r in
    let rest = let_through d now key ks after in
    if eq_bytes k key then (if acquired then suc rest else rest) else rest

not_below : (n : ℕ) → ltb (suc n) 1 ≡ false
not_below n = ground arith

module _ (d : Doubles) (exact : IsExact d) (now : ℕ) (key : Bytes) where
  -- The next request of the key meets this many tokens.
  abbrev Holds : ℕ → RateLimiter d → Type 0
  Holds n r =
      bucket_at d r.limits now (r.buckets key) ≡ record { tokens = d.of_nat n; last_refill = now }

  refilled_now :
      (limits : Limits d) (n : ℕ)
      → bucket_at d limits now (some (record { tokens = d.of_nat n; last_refill = now }))
        ≡ record { tokens = d.of_nat n; last_refill = now }
  unfolding bucket_at refill
  refilled_now limits n = rw (exact.no_time now) refl

  none_left :
      (r : RateLimiter d)
      → Holds 0 r
      → ((try_acquire d now key r).0 ≡ false) × Holds 0 (try_acquire d now key r).1
  unfolding try_acquire
  none_left r holds =
      let short : d.less (d.of_nat 0) (d.of_nat 1) ≡ true =
        exact.less_nat 0 1 (omega arith) (omega arith) ∙ lt→ltb 0 1 (omega arith) in
      rw (holds, short, try_acquire) (refl, rw (eq_bytes_refl key) (refilled_now r.limits 0))

  one_taken :
      (n : ℕ) (r : RateLimiter d)
      → suc n ≤ 2 ^ 53
      → Holds (suc n) r
      → ((try_acquire d now key r).0 ≡ true) × Holds n (try_acquire d now key r).1
  unfolding try_acquire
  one_taken n r small holds =
      let enough : d.less (d.of_nat (suc n)) (d.of_nat 1) ≡ false =
        exact.less_nat (suc n) 1 small (omega arith) ∙ not_below n in
      rw (holds, enough, try_acquire)
        (refl, rw (eq_bytes_refl key, exact.minus_one n small) (refilled_now r.limits n))

  elsewhere :
      (n : ℕ) (k : Bytes) (r : RateLimiter d)
      → eq_bytes k key ≡ false
      → Holds n r
      → Holds n (try_acquire d now k r).1
  unfolding try_acquire
  elsewhere n k r apart holds =
      let other : eq_bytes key k ≡ false = ground (arith, eq_bytes_iff k key, eq_bytes_iff key k) in
      elim (Bool-cases (d.less (bucket_at d r.limits now (r.buckets k)).tokens (d.of_nat 1))) [
        | inl short ↦ rw (short, try_acquire) (rw other holds)
        | inr enough ↦ rw (enough, try_acquire) (rw other holds)
      ]

  Holds-let_through :
      (n : ℕ) (keys : List Bytes) (r : RateLimiter d)
      → n ≤ 2 ^ 53
      → Holds n r
      → let_through d now key keys r ≡ lesser (count_rows (λ k. eq_bytes k key) keys) n
  unfolding let_through count_rows
  Holds-let_through n [] r small holds = ground arith
  Holds-let_through zero (k ∷ ks) r small holds = elim (Bool-cases (eq_bytes k key)) [
    | inr apart ↦
        rw apart (
          Holds-let_through zero ks (try_acquire d now k r).1 small
            (elsewhere zero k r apart holds))
    | inl same ↦
        let (refused, left) = none_left r holds in
        let rest = Holds-let_through zero ks (try_acquire d now key r).1 small left in
        rw ((eq_bytes_iff k key).0 same, eq_bytes_refl key, refused) (ground (arith, rest))
  ]
  Holds-let_through (suc n) (k ∷ ks) r small holds = elim (Bool-cases (eq_bytes k key)) [
    | inr apart ↦ rw apart (
        Holds-let_through (suc n) ks (try_acquire d now k r).1 small
          (elsewhere (suc n) k r apart holds))
    | inl same ↦
        let (taken, left) = one_taken n r small holds in
        let rest = Holds-let_through n ks (try_acquire d now key r).1 (omega arith) left in
        rw ((eq_bytes_iff k key).0 same, eq_bytes_refl key, taken) (ground (arith, rest))
  ]

-- Of the requests of one key that come at one instant, among requests of any keys, the first `capacity`
-- are let through, and no other, after a limiter is made or reconfigured. Doubles are exact on integers
-- up to 2 ^ 53, and the capacity is one of them.
pub reconfigure-let_through :
    (d : Doubles) (now : ℕ) (key : Bytes) (keys : List Bytes) (capacity : ℕ) (refill_window : ℤ)
    → IsExact d
    → at_least_one capacity ≤ 2 ^ 53
    → let_through d now key keys (reconfigure d capacity refill_window)
      ≡ lesser (count_rows (λ k. eq_bytes k key) keys) (at_least_one capacity)
unfolding reconfigure bucket_at apply_limits
reconfigure-let_through d now key keys capacity refill_window exact small =
    Holds-let_through d exact now key (at_least_one capacity) keys
      (reconfigure d capacity refill_window) small refl
