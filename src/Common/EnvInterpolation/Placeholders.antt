-- ===== src/Common/EnvInterpolation/Placeholders.antt =====
-- src/common/EnvInterpolation.cpp: a text with its placeholders, piece by piece.
use mathlib.Core.List.{append_assoc, append-nil}
use custom_game_launcher_bac.Base.{
  ◌≡◌, refl, sym, ap, ◌∙◌, false, [], ◌∷◌, ◌++◌, Option, arith, contains, Bytes, Result, ok, err,
}
use custom_game_launcher_bac.Common.EnvInterpolation.{
  split_expression, substitute, append, append_result, in_text, in_placeholder, interpolate_from,
  interpolate_env,
}

append-append : (xs ys : Bytes) (r : Result Bytes) → append xs (append ys r) ≡ append (xs ++ ys) r
append-append xs ys (ok zs) = ap ok (sym (append_assoc xs ys zs))
append-append xs ys (err e) = refl

-- The text before a placeholder is copied, where it has no dollar sign.
text_copied :
    (lookup : Bytes → Option Bytes) (before rest : Bytes)
    → contains b'$' before ≡ false
    → interpolate_from lookup in_text (before ++ b'$' ∷ b'{' ∷ rest)
      ≡ append before (interpolate_from lookup (in_placeholder []) rest)
unfolding interpolate_from
text_copied lookup [] rest h = copied_nil (interpolate_from lookup (in_placeholder []) rest)
  where
    copied_nil : (r : Result Bytes) → r ≡ append [] r
    copied_nil (ok bytes) = refl
    copied_nil (err e) = refl
text_copied lookup (c ∷ []) rest h = ground arith
text_copied lookup (c ∷ d ∷ before) rest h = ground (
  arith,
  text_copied lookup (d ∷ before) rest,
  append-append (c ∷ []) (d ∷ before) (interpolate_from lookup (in_placeholder []) rest),
)

-- A placeholder is read up to its brace.
placeholder_read :
    (lookup : Bytes → Option Bytes) (met expression rest : Bytes)
    → contains b'}' expression ≡ false
    → interpolate_from lookup (in_placeholder met) (expression ++ b'}' ∷ rest)
      ≡ append_result
          (substitute lookup (split_expression (met ++ expression)))
          (interpolate_from lookup in_text rest)
unfolding interpolate_from
placeholder_read lookup met [] rest h =
    ap
      (λ e.
        append_result (substitute lookup (split_expression e))
          (interpolate_from lookup in_text rest))
      (sym (append-nil met))
placeholder_read lookup met (c ∷ expression) rest h = ground (
  arith,
  placeholder_read lookup (met ++ c ∷ []) expression rest,
  append_assoc met (c ∷ []) expression,
)

-- A text up to its first placeholder is copied, the placeholder gives way to what it stands for, as
-- it is and not read again, and the rest is interpolated on its own: an error of the placeholder is
-- the answer before any error of the rest. The text has no dollar sign and the placeholder no brace.
pub interpolate_env-placeholder :
    (lookup : Bytes → Option Bytes) (before expression rest : Bytes)
    → contains b'$' before ≡ false
    → contains b'}' expression ≡ false
    → interpolate_env (before ++ b'$' ∷ b'{' ∷ (expression ++ b'}' ∷ rest)) lookup
      ≡ append before (
          append_result
            (substitute lookup (split_expression expression))
            (interpolate_env rest lookup))
unfolding interpolate_env
interpolate_env-placeholder lookup before expression rest h k =
    text_copied lookup before (expression ++ b'}' ∷ rest) h
    ∙ ap (append before) (placeholder_read lookup [] expression rest k)
