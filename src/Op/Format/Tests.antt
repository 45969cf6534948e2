-- ===== src/Op/Format/Tests.antt =====
-- The format string "=%s" on a stack with a string on top.
use dwgrep.Base.{[], ◌∷◌}
use dwgrep.Samples.{codes, show_value}
use dwgrep.Stack.{Stack}
use dwgrep.Op.{op_origin}
use dwgrep.Op.Stream.{single, bind, Computes}
use dwgrep.Op.Mapping.{op_origin-Computes}
use dwgrep.Op.Format.{Stringer, stringer_origin, stringer_lit, stringer_op, op_format}
use dwgrep.Op.Format.Texts.{Texts, text, done, prefixed, shown_each, pushed, TextComputes}
use dwgrep.Op.Format.Stringers.{
  stringer_origin-TextComputes, stringer_lit-TextComputes, stringer_op-TextComputes,
}
use dwgrep.Op.Format.Computes.{op_format-Computes}

abbrev equals_value : Stringer
equals_value = stringer_lit (61 ∷ []) (stringer_op codes show_value op_origin stringer_origin)

abbrev equals_texts : Stack → Texts
equals_texts x = prefixed (61 ∷ []) (shown_each codes show_value single (text x [] done))

abbrev equals_value-TextComputes : TextComputes equals_value equals_texts
equals_value-TextComputes =
    stringer_lit-TextComputes (61 ∷ []) (stringer_op codes show_value op_origin stringer_origin)
      (λ x. shown_each codes show_value single (text x [] done))
      (stringer_op-TextComputes codes show_value op_origin stringer_origin single op_origin-Computes
        (λ x. text x [] done) stringer_origin-TextComputes)

op_format-Computes_example :
    Computes
      (op_format codes show_value equals_value op_origin)
      (λ x. bind (single x) (λ y. pushed codes show_value 0 (equals_texts y)))
op_format-Computes_example =
    op_format-Computes codes show_value equals_value op_origin equals_texts
      equals_value-TextComputes single op_origin-Computes
