-- ===== src/Tests/Types.antt =====
-- Types of what can be called.
use easyrpc.Prelude.{◌≡◌, true, false, some}
use easyrpc.FunctionTraits.{
  by_value, lvalue, type, named, callable, function_traits, CppType, Params, nil, cons, plain,
  Traits,
}
use easyrpc.FunctionTraits.Spellings.{function_traits_iff, of_callable}

abbrev int_type : CppType
int_type = plain (named "int")

-- `const std::string&`
abbrev text_argument : CppType
text_argument = type lvalue true false (named "std::string")

abbrev two_arguments : Params
two_arguments = cons int_type (cons text_argument nil)

-- `[](int, const std::string&) -> int`, named as a constant
abbrev lambda_type : CppType
lambda_type =
    type by_value true false (callable "lambda" int_type two_arguments true false by_value)

abbrev lambda_traits : Traits
lambda_traits = record { return_type = int_type; args = two_arguments }

lambda_test : function_traits lambda_type ≡ some lambda_traits
lambda_test =
    (function_traits_iff lambda_type lambda_traits).1 (of_callable true false "lambda" true false)
