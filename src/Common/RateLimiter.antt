-- ===== src/Common/RateLimiter.antt =====
-- src/common/RateLimiter.cpp: a bucket of tokens for each key. The arithmetic of doubles is a parameter.
-- The steady clock counts ticks.
pub mod Burst
use custom_game_launcher_bac.Base.{
  ℕ, Bool, true, false, not, Option, none, some, ltb, leb, if◌then◌else◌, ℤ, pos, pos_part, ltb_ℤ,
  Bytes, eq_bytes,
}

-- What the source uses of double, std::chrono::duration<double> and std::ceil.
pub record Doubles : Type 1 where
  pub Double : Type 0
  -- static_cast<double>, and the literals 0.0 and 1.0.
  pub of_nat : ℕ → Double
  pub plus : Double → Double → Double
  pub minus : Double → Double → Double
  pub times : Double → Double → Double
  pub over : Double → Double → Double
  pub less : Double → Double → Bool
  -- std::ceil, cast to long long.
  pub ceil : Double → ℕ
  -- The seconds from the first point in time to the second.
  pub seconds_between : ℕ → ℕ → Double

-- MINIMUM_CAPACITY is 1.
abbrev pub at_least_one : ℕ → ℕ
at_least_one n = if leb 1 n then n else 1

module _ (d : Doubles) where
  pub record Limits : Type 0 where
    pub capacity : d.Double
    pub refill_window : ℕ
    pub tokens_per_second : d.Double

  pub record Bucket : Type 0 where
    pub tokens : d.Double
    pub last_refill : ℕ

  pub record RateLimiter : Type 0 where
    pub limits : Limits
    pub buckets : Bytes → Option Bucket

  unfoldable pub apply_limits : ℕ → ℤ → Limits
  apply_limits capacity refill_window =
      let window = if ltb_ℤ (pos 0) refill_window then pos_part refill_window else 1 in
      record {
        capacity = d.of_nat (at_least_one capacity);
        refill_window = window;
        tokens_per_second = d.over (d.of_nat (at_least_one capacity)) (d.of_nat window);
      }

  unfoldable pub reconfigure : ℕ → ℤ → RateLimiter
  unfolding apply_limits
  reconfigure capacity refill_window = record {
    limits = apply_limits capacity refill_window;
    buckets = λ key. none;
  }

  -- std::min.
  abbrev pub min : d.Double → d.Double → d.Double
  min a b = if d.less b a then b else a

  unfoldable pub refill : Limits → ℕ → Bucket → Bucket
  refill limits now bucket =
      let elapsed = d.seconds_between bucket.last_refill now in
      if d.less (d.of_nat 0) elapsed
      then record {
        tokens =
            min limits.capacity (d.plus bucket.tokens (d.times elapsed limits.tokens_per_second));
        last_refill = now;
      }
      else bucket

  abbrev pub put : Bytes → Bucket → RateLimiter → RateLimiter
  put key bucket r = record r {
    buckets = λ other. if eq_bytes other key then some bucket else r.buckets other;
  }

  -- The bucket that a request meets: a new one is full, a known one is refilled.
  unfoldable pub bucket_at : Limits → ℕ → Option Bucket → Bucket
  unfolding refill
  bucket_at limits now none = record { tokens = limits.capacity; last_refill = now }
  bucket_at limits now (some bucket) = refill limits now bucket

  unfoldable pub try_acquire : ℕ → Bytes → RateLimiter → Bool × RateLimiter
  unfolding bucket_at
  try_acquire now key r =
      let bucket = bucket_at r.limits now (r.buckets key) in
      if d.less bucket.tokens (d.of_nat 1)
      then (false, put key bucket r)
      else (true, put key (record bucket { tokens = d.minus bucket.tokens (d.of_nat 1) }) r)

  unfoldable pub retry_after : ℕ → Bytes → RateLimiter → ℕ × RateLimiter
  unfolding refill
  retry_after now key r = elim (r.buckets key) [
    | none ↦ (0, r)
    | some known ↦
        let bucket = refill r.limits now known in
        if not (d.less bucket.tokens (d.of_nat 1)) then (0, put key bucket r) else (
          d.ceil (d.over (d.minus (d.of_nat 1) bucket.tokens) r.limits.tokens_per_second),
          put key bucket r,
        )
  ]

  -- One round of the loop of prune: a bucket that is full is erased.
  unfoldable pub prune_bucket : Limits → ℕ → Option Bucket → Option Bucket
  unfolding refill
  prune_bucket limits now none = none
  prune_bucket limits now (some known) =
      let bucket = refill limits now known in
      if not (d.less bucket.tokens limits.capacity) then none else some bucket

  unfoldable pub prune : ℕ → RateLimiter → RateLimiter
  unfolding prune_bucket
  prune now r = record r { buckets = λ key. prune_bucket r.limits now (r.buckets key) }

  unfoldable pub reset : RateLimiter → RateLimiter
  reset r = record r { buckets = λ key. none }
