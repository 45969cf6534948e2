-- ===== src/Lib.antt =====
-- A verification library for dwgrep, a query language over Dwarf data. A query is built into a
-- chain of operations that pass stacks of values along; the values are integers with a domain,
-- strings, sequences, and objects of the Dwarf library such as address sets. The library models
-- the parts of libzwerg that carry this, with elfutils as a parameter where they call it.
--
-- * Mpz models libzwerg/int.hh and libzwerg/int.cc: `mpz_class`, 64 bits read as signed or
--   unsigned, with operator<, ==, <=, >, >=, != (lt, eq, le, gt, ge, ne), the unary minus
--   (neg), and operator+, -, *, /, % (add, sub, mul, div, rem). An exception of `int_error` is
--   a value of Error. Mpz/Value has the integer that a value stands for; Mpz/Sum, Product,
--   Quotient and Remainder the proofs.
-- * Coverage models libzwerg/coverage.hh and libzwerg/coverage.cc: the class `coverage`, a
--   sorted vector of ranges, with find and add, their loops and local variables.
--   Coverage/Remove has remove, Coverage/Query the queries and the callbacks of find_ranges
--   and find_holes. Coverage/Ordered has the invariant and the covered addresses.
-- * Constant models the class `constant` of libzwerg/constant.hh and its comparisons in
--   libzwerg/constant.cc. A domain is its address; safe_arith and most_enclosing of the
--   domains are parameters.
-- * Value models the classes of values of libzwerg/value.hh, value-cst.hh, value-str.hh and
--   value-seq.hh; Value/Compare the comparison `cmp` of libzwerg/value-cst.cc, value-str.cc
--   and value-seq.cc, where the comparison of objects of the Dwarf library is a parameter with
--   the laws of an order (ForeignLaws); Value/Elements the producers of `elem` and `relem`,
--   and Value/Search the tests ?starts, ?ends and ?find of libzwerg/value-seq.cc and
--   value-str.cc.
-- * Stack models the class `stack` of libzwerg/stack.hh with its profile, Stack/Compare the
--   comparison of libzwerg/stack.cc, Selector the class of libzwerg/selector.hh, which matches
--   the profile.
-- * AddressSet models libzwerg/value-aset.cc and the words of libzwerg/builtin-aset.cc on the
--   coverages, with the producers of `range` in AddressSet and of `elem` in
--   AddressSet/Elements; AddressSet/Listing has the addresses of a set as a list, and
--   AddressSet/Contains, Overlaps, Span, Compare and Length what the words mean for them. The
--   warnings of addressify are left out, and a constant is its value.
-- * Overload models libzwerg/overload.cc: find_selector, overload_op and overload_pred;
--   Overload/Operate and Overload/Yielding the classes op_overload and op_yielding_overload of
--   libzwerg/overload.hh, Overload/Arithmetic the arithmetic words of libzwerg/value-cst.cc,
--   Overload/Elements the ops of `elem` and `relem`.
-- * Layout models libzwerg/layout.cc.
-- * Dies models libzwerg/dwit.cc: cu_iterator (CuIterator, move), all_dies_iterator
--   (AllDiesIterator; advance is operator++, with climb for its loop) and child_iterator
--   (child_begin, child_advance), where the functions of elfutils are the fields of a record
--   (Libdw) and HasUnits says which DIEs they know.
-- * Scope models libzwerg/bindings.cc and what build_exec of libzwerg/build.cc does with it
--   for a block: bindings (Bindings, with m_super), bind, find, names_closure, upref, uprefs
--   with its constructor, find (find_upref) and refd_ids, the chain of reads in front of a
--   closure (read_all), the loop of op_lex_closure::next (env_loop) and op_upread::next
--   (upread_on). look_up stands for the names that the body of a block looks up in turn.
-- * Op models libzwerg/op.hh and libzwerg/op.cc: an op with all that is upstream of it is a
--   record of its state, state_con (init), set_next of its origin, and next. Op/Words has the
--   ops that change one stack, with drop, swap, dup, over and rot of libzwerg/builtin-shf.cc;
--   Op/Assert, Op/Subx, Op/Capture, Op/Ifelse and Op/Or the ops of these names, and Op/Format
--   op_format and the stringers, with the output of values as a parameter, Op/Closure
--   op_tr_closure; Op/Closure/Explore is its search as a function on streams. Op/Merge has
--   op_merge and op_tine, with the part of the state that the tines share put into the state
--   of a branch before it is asked; Op/Merge/Order says in which order the branches take the
--   stacks. Op/Stream says what an op yields (Drains) and computes (Computes), and Op/Over how
--   an op works on its upstream.
-- * Pred models libzwerg/pred_result.hh and the predicates of libzwerg/op.cc, Pred/Comparison
--   the comparison words of libzwerg/builtin-cmp.cc; Tree the trees of libzwerg/tree.hh and
--   their building into ops in libzwerg/build.cc, Tree/Meaning what they mean, Tree/Profiled
--   the profiles of the stacks that they yield, Tree/Simplify their simplification in
--   libzwerg/tree.cc; Query the running of a query in libzwerg/libzwerg.cc and
--   libzwerg/libzwergP.hh.
-- * Base has what they share: list functions and tests over the native numbers, machine words,
--   integers; Samples the data that the tests run on.
--
-- Numbers of the machine are natural numbers with the wrap-around of 64 or 32 bits written out.
-- operator+ and operator- of Mpz call each other; their fuel is the depth of the calls, 3, since
-- each such call takes the sign from one operand. The fuel of the loop of `find` is the length
-- of the vector, which each round halves; that of the loop of `add` the number of ranges from
-- its index on, of which each round takes one; that of the loop of `remove` that number and one
-- more, for a last round that cuts a range. Iterators are indices. The fuel of `simplify` is the
-- number of nodes of the tree and one more, since it is called again on smaller trees only; that
-- of its loops the number of nodes and three more. The loops of the ops can take any number of
-- rounds, so `next` takes fuel, and Eventually stands for what holds from some fuel on. The
-- search of a transitive closure need not end; `explore` takes a bound for the number of visits,
-- `finishes` says that the bound is enough, and Op/Closure/Finite proves it where the op stays
-- among finitely many stacks. A std::set of stacks is the list of its elements, and a new stack
-- is in it if it is equivalent to one of them by operator<, as a std::set promises for an order;
-- where operator< is no order, as constants of several domains can make it, the set of the
-- program may find other elements.
--
-- Not modelled: the ops bind, read and apply, and that a closure is a value; the trees that are
-- built into them and into the ops for alternation (Op/Merge models those ops, but the tines
-- share one state, which the meaning of a tree does not have); the lexer and the parser, which
-- flex and bison generate; what reads Dwarf or ELF data through elfutils, but for the iterators
-- over units and DIEs; printing, docstrings and the rest of the public C interface; the command
-- line program.
pub mod Base
pub mod Samples
pub mod Mpz
pub mod Coverage
pub mod Value
pub mod Stack
pub mod Selector
pub mod Overload
pub mod Layout
pub mod Op
pub mod Pred
pub mod AddressSet
pub mod Tree
pub mod Query
pub mod Constant
pub mod Scope
pub mod Dies
