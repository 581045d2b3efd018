-- ===== src/Extension.antt =====
-- websocket/src/extension.rs: the extensions of a connection, and the macro `parameter!`.
pub mod Arguments
mod Tests
use websocket_std.Prelude.{ℕ, ◌+◌, List, [], ◌∷◌, length, Option, none, some, if◌then◌else◌}
use websocket_std.Outcome.{Outcome, ok, err, panic, ◌>>=◌, slice}
use websocket_std.Std.Str.{find, trim, str_eq}
use websocket_std.Http.Headers.{Text}

-- `HashMap<String, Option<String>>`.
abbrev pub Args : Type 0
Args = List (Text × Option Text)

pub record Parameter : Type 0 where
  pub name : Text
  pub args : Option Args

pub record Extension : Type 0 where
  pub name : Text
  pub params : List Parameter

unfoldable pub insert_arg : Text → Option Text → Args → Args
unfolding str_eq
insert_arg k v [] = (k, v) ∷ []
insert_arg k v ((j, w) ∷ m) = if str_eq j k then (j, v) ∷ m else (j, w) ∷ insert_arg k v m

-- One argument of the macro, at the place of its `=`.
unfoldable pub add_arg : Option ℕ → Text → Args → Outcome ⊥ Args
add_arg none arg_val args = ok (insert_arg arg_val none args)
add_arg (some i) arg_val args = slice 0 i arg_val >>= λ arg.
    slice (i + 1) (length arg_val) arg_val >>= λ val.
    ok (insert_arg (trim arg) (some (trim val)) args)

unfoldable pub collect_args : List Text → Args → Outcome ⊥ Args
collect_args [] args = ok args
collect_args (arg_val ∷ rest) args =
    add_arg (find (b'=' ∷ []) arg_val) arg_val args >>= collect_args rest

-- `parameter!(name)`.
unfoldable pub named : Text → Parameter
named name = record { name = name; args = none }

-- `parameter!(name; arg, …)`.
unfoldable pub parameter : Text → List Text → Outcome ⊥ Parameter
parameter name args =
    collect_args args [] >>= λ collected. ok (record { name = name; args = some collected })
