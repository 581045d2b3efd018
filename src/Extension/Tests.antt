-- ===== src/Extension/Tests.antt =====
-- `parameter!` of websocket/src/extension.rs on concrete arguments.
use websocket_std.Prelude.{◌≡◌, refl, List, [], ◌∷◌, none, some, arith, map}
use websocket_std.Outcome.{ok}
use websocket_std.Std.Str.{codes, trim, str_eq}
use websocket_std.Extension.{parameter}
use websocket_std.Extension.Arguments.{Arg, written, kept, Apart, parameter-args}

-- `a=b` and `c`.
abbrev two_args : List Arg
two_args = (codes "a", some (codes "b")) ∷ (codes "c", none) ∷ []

two_args-Apart : Apart [] (map kept two_args)
unfolding str_eq trim
two_args-Apart = (tt, ((refl, tt), tt))

parameter-args_example :
    parameter (codes "n") (map written two_args)
    ≡ ok (record { name = codes "n"; args = some (map kept two_args) })
parameter-args_example =
    parameter-args (codes "n") two_args ((omega arith, tt), ((omega arith, tt), tt)) two_args-Apart
