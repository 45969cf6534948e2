-- ===== src/Query/Simplified.antt =====
-- A query whose tree is simplified, as zw_query_parse of libzwerg/libzwerg.cc does it.
use dwgrep.Base.{ℕ, ◌<◌, ◌≡◌, refl, sym, ◌∙◌, List, [], ◌∷◌}
use mathlib.Core.Path.{subst}
use dwgrep.Value.{Value, TypeCodes}
use dwgrep.Value.Compare.{ForeignCmp}
use dwgrep.Constant.{Domains}
use dwgrep.Stack.{Stack, Result, ok}
use dwgrep.Stack.Profile.{AreBytes, IsProfiled, push-IsProfiled}
use dwgrep.Op.Stream.{Eventually}
use dwgrep.Op.Closure.{ClosureKind}
use dwgrep.Op.Profiled.{CodesAreBytes}
use dwgrep.Tree.{Tree}
use dwgrep.Tree.Meaning.{meaning, Terminates}
use dwgrep.Tree.Simplify.{tree_size, simplify}
use dwgrep.Tree.Simplify.Congruence.{ShowsStrings}
use dwgrep.Tree.Simplify.Correct.{simplify-meaning}
use dwgrep.Query.{execute, pushed_all, empty_stack}
use dwgrep.Query.Execute.{listed, execute-meaning}

pub pushed_all-IsProfiled :
    (t : TypeCodes) (input : List Value) (x : Stack)
    → AreBytes t input
    → IsProfiled t x
    → IsProfiled t (pushed_all t input x)
unfolding pushed_all
pushed_all-IsProfiled t [] x b h = h
pushed_all-IsProfiled t (v ∷ vs) x b h =
    pushed_all-IsProfiled t vs _ b.1 (push-IsProfiled t v x b.0 h)

-- The simplified tree and the tree itself give the same results with enough fuel, on every input of
-- values whose type codes are bytes: if the searches of the closures in both end within the bound
-- `visits`.
pub execute-simplify :
    (t : TypeCodes) (ds : Domains) (foreign : ForeignCmp) (show : Value → List ℕ)
    (visits : ClosureKind → Stack → ℕ) (a a' : Tree) (n : ℕ) (input : List Value)
    → CodesAreBytes t
    → ShowsStrings show
    → tree_size a < n
    → simplify n a ≡ ok a'
    → AreBytes t input
    → Terminates t ds foreign show (λ k b y. visits k y) a
    → Terminates t ds foreign show (λ k b y. visits k y) a'
    → (r : Result (List Stack)) × Eventually (λ m. execute t ds foreign show a m input) r
      × Eventually (λ m. execute t ds foreign show a' m input) r
execute-simplify t ds foreign show visits a a' n input bytes shows l e b z z' =
    let rounds = λ (k : ClosureKind) (b : Tree) (y : Stack). visits k y in
    let (b', q, less, h) = simplify-meaning t ds foreign show visits a n bytes shows l in
    let x = pushed_all t input empty_stack in
    let profiled = pushed_all-IsProfiled t input empty_stack b (tt, refl) in
    let same : b' ≡ a' = ok_same b' a' (sym q ∙ e) in
    (
      listed (meaning t ds foreign show rounds a x),
      execute-meaning t ds foreign show rounds a input z,
      subst (λ s. Eventually (λ m. execute t ds foreign show a' m input) (listed s))
          (subst (λ c. meaning t ds foreign show rounds c x ≡ meaning t ds foreign show rounds a x)
            same (h x profiled))
          (execute-meaning t ds foreign show rounds a' input z'),
    )
  where
    ok_same : (c d : Tree) → ok c ≡ ok d → c ≡ d
    ok_same c d e = cc
