-- ===== src/FunctionTraits/Spellings.antt =====
-- What can be called, and what its traits are (easyrpc/base/function_traits.hpp).
use mathlib.Core.Option
use mathlib.Core.Option.{some_inj}
use easyrpc.Prelude.{
  ℕ, zero, suc, ◌<◌, ◌≡◌, ◌≢◌, ◌↔◌, refl, ap, sym, Bool, false, none, some, String, arith,
}
use easyrpc.FunctionTraits.{
  by_value, lvalue, rvalue, CppType, type, Unqualified, named, function, pointer_to, std_function,
  member, callable, Params, nil, cons, plain, unqualified, Traits, remove_reference, remove_cv,
  arity_of, arity, element, arg, map_types, tuple_type, function_type, stl_function_type, pointer,
  of_member, of_operator, of_pointer, of_unqualified, function_traits, to_function,
  to_function_pointer,
}

abbrev signature : CppType → Params → Traits
signature ret args = record { return_type = ret; args = args }

-- The types of what can be called with arguments `args` and returns `ret`.
pub data IsSpelling (ret : CppType) (args : Params) : CppType → Type 0 where
  of_function : IsSpelling ret args (plain (function ret args))
  of_function_pointer : IsSpelling ret args (plain (pointer_to (plain (function ret args))))
  of_std_function : (c v : Bool) → IsSpelling ret args (type by_value c v (std_function ret args))
  of_member_function :
      (name : String) (c v : Bool) → IsSpelling ret args (plain (member name ret args c v by_value))
  of_callable :
      (c v : Bool) (name : String) (c' v' : Bool)
      → IsSpelling ret args (type by_value c v (callable name ret args c' v' by_value))

spelling-traits :
    (ret : CppType) (args : Params) (t : CppType)
    → IsSpelling ret args t
    → function_traits t ≡ some (signature ret args)
unfolding function_traits of_operator of_unqualified of_pointer of_member
spelling-traits ret args t of_function = refl
spelling-traits ret args t of_function_pointer = refl
spelling-traits ret args t (of_std_function c v) = ground arith
spelling-traits ret args t (of_member_function name c v) = refl
spelling-traits ret args t (of_callable c v name c' v') = ground arith

-- `IsSpelling` at the signature of some traits.
abbrev pub Spells : CppType → Traits → Type 0
Spells t ts = IsSpelling ts.return_type ts.args t

some-signature :
    (ret : CppType) (args : Params) (t : CppType) (ts : Traits)
    → IsSpelling ret args t
    → some (signature ret args) ≡ some ts
    → Spells t ts
some-signature ret args t ts h e = rw (sym (some_inj.0 e)) h

operator-spelling :
    (c v : Bool) (u : Unqualified) (ts : Traits)
    → of_operator u ≡ some ts
    → Spells (type by_value c v u) ts
unfolding of_operator of_member
operator-spelling c v (std_function ret args) ts e =
    some-signature ret args _ ts (of_std_function c v) e
operator-spelling c v (callable name ret args c' v' by_value) ts e =
    some-signature ret args _ ts (of_callable c v name c' v') e
operator-spelling c v (callable name ret args c' v' lvalue) ts e = absurd (cc)
operator-spelling c v (callable name ret args c' v' rvalue) ts e = absurd (cc)
operator-spelling c v (named name) ts e = absurd (cc)
operator-spelling c v u ts e = absurd (cc)

pointer-spelling :
    (t : CppType) (ts : Traits) → of_pointer t ≡ some ts → Spells (plain (pointer_to t)) ts
unfolding of_pointer
pointer-spelling (type by_value false false (function ret args)) ts e =
    some-signature ret args _ ts of_function_pointer e
pointer-spelling (type r c v u) ts e = absurd (cc)

unqualified-spelling :
    (u : Unqualified) (ts : Traits) → of_unqualified u ≡ some ts → Spells (plain u) ts
unfolding of_unqualified of_member
unqualified-spelling (function ret args) ts e = some-signature ret args _ ts of_function e
unqualified-spelling (pointer_to t) ts e = pointer-spelling t ts e
unqualified-spelling (std_function ret args) ts e =
    some-signature ret args _ ts (of_std_function false false) e
unqualified-spelling (member name ret args c v by_value) ts e =
    some-signature ret args _ ts (of_member_function name c v) e
unqualified-spelling (member name ret args c v lvalue) ts e = absurd (cc)
unqualified-spelling (member name ret args c v rvalue) ts e = absurd (cc)
unqualified-spelling u ts e = operator-spelling false false u ts e

traits-spelling : (t : CppType) (ts : Traits) → function_traits t ≡ some ts → Spells t ts
unfolding function_traits
traits-spelling (type by_value false false u) ts e = unqualified-spelling u ts e
traits-spelling (type by_value c v u) ts e = operator-spelling c v u ts e
traits-spelling (type r c v u) ts e = absurd (cc)

-- The traits of a type are computed exactly if it is one of these types, and they are its result and
-- its arguments: a function, or a pointer to one or to a member function, without `const` and
-- `volatile` of its own; a `std::function`, or a class with an `operator()`, with or without them.
-- A member function or an operator may be `const` or `volatile`, but has no `&` or `&&` behind it.
pub function_traits_iff : (t : CppType) (ts : Traits) → (function_traits t ≡ some ts) ↔ Spells t ts
function_traits_iff t ts = (traits-spelling t ts, spelling-traits ts.return_type ts.args t)

-- `to_function` and `to_function_pointer` keep the traits: the types that they return have the same.
pub to_function-traits :
    (t : CppType) (ts : Traits)
    → function_traits t ≡ some ts
    → (f : CppType) × (g : CppType) × (to_function t ≡ some f)
      × (to_function_pointer t ≡ some g)
      × (function_traits f ≡ some ts)
      × (function_traits g ≡ some ts)
unfolding to_function to_function_pointer stl_function_type pointer function_type
to_function-traits t ts e = (
  stl_function_type ts,
  pointer ts,
  rw e refl,
  rw e refl,
  spelling-traits ts.return_type ts.args _ (of_std_function false false),
  spelling-traits ts.return_type ts.args _ of_function_pointer,
)

element_iff : (i : ℕ) (ps : Params) → (element i ps ≢ none) ↔ (i < arity_of ps)
unfolding element arity_of
element_iff i nil = ((λ h. absurd (h refl)), λ lt. absurd (omega arith))
element_iff zero (cons t ps) = ((λ h. omega arith), λ lt e. cc)
element_iff (suc i) (cons t ps) =
    let ih = element_iff i ps in ((λ h. omega (arith, ih.0 h)), λ lt. ih.1 (omega arith))

arity_of-map_types : (f : CppType → CppType) (ps : Params) → arity_of (map_types f ps) ≡ arity_of ps
unfolding arity_of map_types
arity_of-map_types f nil = refl
arity_of-map_types f (cons t ps) = ap suc (arity_of-map_types f ps)

remove-plain : (t : CppType) → remove_cv (remove_reference t) ≡ plain (unqualified t)
unfolding remove_cv remove_reference unqualified
remove-plain (type r c v u) = refl

element-tuple :
    (i : ℕ) (ps : Params)
    → element i (map_types (λ t. remove_cv (remove_reference t)) ps)
      ≡ Option.map (λ t. plain (unqualified t)) (element i ps)
unfolding element map_types
element-tuple i nil = refl
element-tuple zero (cons t ps) = ap some (remove-plain t)
element-tuple (suc i) (cons t ps) = element-tuple i ps

-- `args<I>` compiles exactly if `I` is less than the arity; the tuple has as many elements, and the
-- one at `I` is the type of the argument, without its reference, `const` and `volatile`.
args_tuple :
    (ts : Traits) (i : ℕ)
    → ((arg i ts ≢ none) ↔ (i < arity ts))
      × (arity_of (tuple_type ts) ≡ arity ts)
      × (element i (tuple_type ts) ≡ Option.map (λ t. plain (unqualified t)) (arg i ts))
unfolding arg arity tuple_type
args_tuple ts i = (element_iff i ts.args, arity_of-map_types _ ts.args, element-tuple i ts.args)
