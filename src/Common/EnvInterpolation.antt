-- ===== src/Common/EnvInterpolation.antt =====
-- src/common/EnvInterpolation.cpp: the placeholders of a configuration file. The environment is a
-- parameter.
pub mod Placeholders
use custom_game_launcher_bac.Base.{
  ℕ, Bool, true, false, ◌&&◌, [], ◌∷◌, ◌++◌, Option, none, some, ◌==◌, if◌then◌else◌, is_empty,
  Bytes, Result, ok, err, failure, invalid_input, lit, text,
}

-- The name and the default behind the first ":-", if there is one.
pub record Expression : Type 0 where
  pub name : Bytes
  pub fallback : Option Bytes

abbrev pub longer : ℕ → Expression → Expression
longer c e = record e { name = c ∷ e.name }

unfoldable pub split_expression : Bytes → Expression
split_expression [] = record { name = []; fallback = none }
split_expression (c ∷ []) = record { name = c ∷ []; fallback = none }
split_expression (c ∷ d ∷ cs) =
    if c == b':' && d == b'-'
    then record { name = []; fallback = some cs }
    else longer c (split_expression (d ∷ cs))

-- What takes the place of a placeholder.
unfoldable pub substitute : (Bytes → Option Bytes) → Expression → Result Bytes
substitute lookup expression =
    if is_empty expression.name
    then failure invalid_input (lit "empty variable name in ${...} placeholder" ∷ [])
    else elim (lookup expression.name) [
      | some value ↦ ok value
      | none ↦ elim expression.fallback [
        | some fallback ↦ ok fallback
        | none ↦
            failure invalid_input
              (lit "required environment variable is not set: " ∷ text expression.name ∷ [])
      ]
    ]

-- output.append.
abbrev pub append : Bytes → Result Bytes → Result Bytes
append done (ok rest) = ok (done ++ rest)
append done (err e) = err e

-- `output.append(substituted)`, where the substitution did not fail.
abbrev pub append_result : Result Bytes → Result Bytes → Result Bytes
append_result (ok value) rest = append value rest
append_result (err e) rest = err e

-- Where the loop stands: in the text, or behind a "${" with the bytes met since.
pub data Cursor : Type 0 where
  in_text : Cursor
  in_placeholder : Bytes → Cursor

unfoldable pub interpolate_from : (Bytes → Option Bytes) → Cursor → Bytes → Result Bytes
unfolding split_expression substitute
interpolate_from lookup in_text [] = ok []
interpolate_from lookup in_text (c ∷ []) = ok (c ∷ [])
interpolate_from lookup in_text (c ∷ d ∷ cs) =
    let placeholder = interpolate_from lookup (in_placeholder []) cs in
    let rest = append (c ∷ []) (interpolate_from lookup in_text (d ∷ cs)) in
    if c == b'$' && d == b'{' then placeholder else rest
interpolate_from lookup (in_placeholder met) [] =
    failure invalid_input (lit "unterminated ${...} placeholder in configuration" ∷ [])
interpolate_from lookup (in_placeholder met) (c ∷ cs) =
    let closed =
      append_result (substitute lookup (split_expression met))
        (interpolate_from lookup in_text cs) in
    let open_still = interpolate_from lookup (in_placeholder (met ++ c ∷ [])) cs in
    if c == b'}' then closed else open_still

unfoldable pub interpolate_env : Bytes → (Bytes → Option Bytes) → Result Bytes
unfolding interpolate_from
interpolate_env input lookup = interpolate_from lookup in_text input
