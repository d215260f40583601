-- ===== src/FunctionTraits.antt =====
-- easyrpc/base/function_traits.hpp: what is computed from the type of something that can be called.
-- A template is a function of types; what does not compile is `none`. A type of a function is taken
-- behind the adjustments that the language makes to its parameters.
pub mod Spellings
use mathlib.Core.Option
use easyrpc.Prelude.{ℕ, zero, suc, Bool, false, Option, none, some, String}

-- What stands behind a type: nothing, `&` or `&&`.
pub data Reference : Type 0 where
  by_value lvalue rvalue : Reference

mutual
  -- A type with its reference and, below that, its `const` and `volatile`.
  pub data CppType : Type 0 where
    type : Reference → Bool → Bool → Unqualified → CppType

  pub data Unqualified : Type 0 where
    named : String → Unqualified  -- a type whose objects cannot be called
    function : CppType → Params → Unqualified  -- `Ret(Args...)`
    pointer_to : CppType → Unqualified
    std_function : CppType → Params → Unqualified  -- `std::function<Ret(Args...)>`
    -- `Ret(ClassType::*)(Args...)` with its cv-qualifiers and its reference
    member : String → CppType → Params → Bool → Bool → Reference → Unqualified
    -- a class with one `operator()`, which has these qualifiers: also the type of a lambda
    callable : String → CppType → Params → Bool → Bool → Reference → Unqualified

  pub data Params : Type 0 where
    nil : Params
    cons : CppType → Params → Params

-- A type as it stands, without `const`, `volatile` or a reference.
abbrev pub plain : Unqualified → CppType
plain u = type by_value false false u

pub unqualified : CppType → Unqualified
unqualified (type r c v u) = u

-- The members of `function_traits<Ret(Args...)>`; all others derive from it.
pub record Traits : Type 0 where
  pub return_type : CppType
  pub args : Params

pub remove_reference : CppType → CppType
remove_reference (type r c v u) = type by_value c v u

-- What stands below a reference is not qualified itself.
pub remove_cv : CppType → CppType
remove_cv (type by_value c v u) = type by_value false false u
remove_cv (type r c v u) = type r c v u

pub arity_of : Params → ℕ
arity_of nil = 0
arity_of (cons t ps) = suc (arity_of ps)

pub arity : Traits → ℕ
arity t = arity_of t.args

-- `std::tuple_element`
pub element : ℕ → Params → Option CppType
element i nil = none
element zero (cons t ps) = some t
element (suc i) (cons t ps) = element i ps

-- `args<I>::type`, behind its `static_assert`
pub arg : ℕ → Traits → Option CppType
arg i t = element i t.args

pub map_types : (CppType → CppType) → Params → Params
map_types f nil = nil
map_types f (cons t ps) = cons (f t) (map_types f ps)

-- The types of the elements of the tuple.
pub tuple_type : Traits → Params
tuple_type t = map_types (λ p. remove_cv (remove_reference p)) t.args

pub function_type : Traits → CppType
function_type t = plain (function t.return_type t.args)

pub stl_function_type : Traits → CppType
stl_function_type t = plain (std_function t.return_type t.args)

pub pointer : Traits → CppType
unfolding function_type
pointer t = plain (pointer_to (function_type t))

-- The four specializations of the macro: any `const` and `volatile`, no reference.
of_member : CppType → Params → Reference → Option Traits
of_member ret args by_value = some (record { return_type = ret; args = args })
of_member ret args r = none

-- `decltype(&Callable::operator())` in `function_traits`; `std::function` has an `operator() const`.
of_operator : Unqualified → Option Traits
of_operator (std_function ret args) = of_member ret args by_value
of_operator (callable name ret args c v r) = of_member ret args r
of_operator u = none

of_pointer : CppType → Option Traits
of_pointer (type by_value false false (function ret args)) =
    some (record { return_type = ret; args = args })
of_pointer t = none

of_unqualified : Unqualified → Option Traits
of_unqualified (function ret args) = some (record { return_type = ret; args = args })
of_unqualified (pointer_to t) = of_pointer t
of_unqualified (std_function ret args) = some (record { return_type = ret; args = args })
of_unqualified (member name ret args c v r) = of_member ret args r
of_unqualified u = of_operator u

-- The specializations match a type as it stands; every other one is left to the primary template,
-- which asks for an `operator()`: a class has it with `const` or `volatile`, a reference has none.
pub function_traits : CppType → Option Traits
unfolding of_operator of_unqualified of_pointer of_member
function_traits (type by_value false false u) = of_unqualified u
function_traits (type by_value c v u) = of_operator u
function_traits (type r c v u) = none

-- The type that `to_function` returns, and the type that `to_function_pointer` returns.
pub to_function : CppType → Option CppType
to_function t = Option.map stl_function_type (function_traits t)

pub to_function_pointer : CppType → Option CppType
to_function_pointer t = Option.map pointer (function_traits t)
