-- ===== src/Tests/Common.antt =====
-- The theorems on src/common at concrete inputs.
use custom_game_launcher_bac.Base.{
  ◌/◌, ltb, count_rows, ℕ, ◌+◌, ◌-◌, ◌*◌, ◌≡◌, ◌≢◌, refl, sym, ◌∙◌, ◌++◌, is_empty, Option, ok,
  find_byte, none, some, false, if◌then◌else◌, true, arith, List, [], ◌∷◌, Bytes, codes, eq_bytes,
  pos,
}
use custom_game_launcher_bac.Common.ClientAddress.{is_trusted_proxy, resolve_client_address}
use custom_game_launcher_bac.Common.ClientAddress.Hops.{resolve_client_address_unforged}
use custom_game_launcher_bac.Common.EnvInterpolation.{
  append, append_result, substitute, split_expression, interpolate_env,
}
use custom_game_launcher_bac.Common.EnvInterpolation.Placeholders.{interpolate_env-placeholder}
use custom_game_launcher_bac.Common.RateLimiter.{
  Doubles, at_least_one, apply_limits, reconfigure, refill, bucket_at, try_acquire,
}
use custom_game_launcher_bac.Common.RateLimiter.Burst.{
  IsExact, lesser, let_through, reconfigure-let_through,
}

-- Whole numbers, in place of doubles.
abbrev whole : Doubles
whole = record {
  Double = ℕ;
  of_nat = λ n. n;
  plus = ◌+◌;
  minus = ◌-◌;
  times = ◌*◌;
  over = ◌/◌;
  less = ltb;
  ceil = λ n. n;
  seconds_between = λ last now. (now - last) / 1000000000;
}

irreflexive : (n : ℕ) → ltb 0 ((n - n) / 1000000000) ≡ false
irreflexive n = ground arith

whole-IsExact : IsExact whole
whole-IsExact = record {
  less_nat = λ m n small large. refl;
  minus_one = λ n small. omega arith;
  no_time = irreflexive;
}

abbrev client_key : Bytes
client_key = codes "::1"

-- Two requests for each ten seconds, and three from one address.
abbrev burst : List Bytes
burst = client_key ∷ codes "::2" ∷ client_key ∷ client_key ∷ []

reconfigure-let_through_example :
    let_through whole 7 client_key burst (reconfigure whole 2 (pos 10))
    ≡ lesser (count_rows (λ k. eq_bytes k client_key) burst) (at_least_one 2)
reconfigure-let_through_example =
    reconfigure-let_through whole 7 client_key burst 2 (pos 10) whole-IsExact (omega arith)

two_let_through : let_through whole 7 client_key burst (reconfigure whole 2 (pos 10)) ≡ 2
unfolding let_through try_acquire bucket_at refill reconfigure apply_limits eq_bytes
two_let_through = refl

-- A proxy on the bridge of the containers forwards the address of a client.
abbrev proxies : List Bytes
proxies = codes " 172.16.0.0/12" ∷ []

abbrev proxy : Bytes
proxy = codes "172.18.0.5"

abbrev forwarded : Bytes
forwarded = codes "203.0.113.9, 172.18.0.4"

attributed : resolve_client_address proxy forwarded proxies ≡ codes "203.0.113.9"
unfolding resolve_client_address find_byte
attributed = refl

attributed-ne : resolve_client_address proxy forwarded proxies ≢ proxy
attributed-ne h = absurd (differ (sym attributed ∙ h))
  where
    differ : codes "203.0.113.9" ≢ proxy
    differ e = cc

resolve_client_address_unforged_example :
    (is_trusted_proxy proxy proxies ≡ true)
    × (is_trusted_proxy (resolve_client_address proxy forwarded proxies) proxies ≡ false)
    × (is_empty (resolve_client_address proxy forwarded proxies) ≡ false)
    × (resolve_client_address proxy (codes "10.0.0.1" ++ b',' ∷ forwarded) proxies
        ≡ resolve_client_address proxy forwarded proxies)
resolve_client_address_unforged_example =
    resolve_client_address_unforged proxy (codes "10.0.0.1") forwarded proxies attributed-ne

-- The environment has a host and nothing else.
abbrev environment : Bytes → Option Bytes
environment name = if eq_bytes name (codes "HOST") then some (codes "db") else none

interpolate_env-placeholder_example :
    interpolate_env
      (codes "//" ++ b'$' ∷ b'{' ∷ (codes "HOST:-localhost" ++ b'}' ∷ codes ":${PORT:-5432}"))
      environment
    ≡ append (codes "//") (
        append_result
          (substitute environment (split_expression (codes "HOST:-localhost")))
          (interpolate_env (codes ":${PORT:-5432}") environment))
interpolate_env-placeholder_example =
    interpolate_env-placeholder environment (codes "//") (codes "HOST:-localhost")
      (codes ":${PORT:-5432}") refl refl

interpolated :
    interpolate_env (codes "//${HOST}:${PORT:-5432}") environment ≡ ok (codes "//db:5432")
unfolding interpolate_env eq_bytes
interpolated = refl
