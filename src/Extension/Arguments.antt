-- ===== src/Extension/Arguments.antt =====
-- What the macro `parameter!` (websocket/src/extension.rs) makes of its arguments.
use websocket_std.Prelude.{
  ◌+◌, ◌≡◌, ◌≢◌, refl, ap, [], ◌∷◌, ◌++◌, length, none, some, false, ◌==◌, arith, All,
  length-append, append-nil, append_assoc, List, Option, map,
}
use websocket_std.Outcome.{ok}
use websocket_std.Outcome.Slices.{slice-part}
use websocket_std.Std.Str.Split.{find-byte}
use websocket_std.Std.Str.{find, starts_with, trim, str_eq}
use websocket_std.Http.Headers.{Text}
use websocket_std.Extension.{insert_arg, add_arg, collect_args, parameter}

-- A text in which there is no `=`.
abbrev pub Plain : Text → Type 0
Plain text = All (λ b. b ≢ b'=') text

find-none : (key : Text) → Plain key → find (b'=' ∷ []) key ≡ none
unfolding find starts_with
find-none [] h = refl
find-none (b ∷ key) h =
    let no : (b'=' == b) ≡ false = ground (arith, h) in rw (no, find-none key h.1) refl

abbrev pub Arg : Type 0
Arg = Text × Option Text

-- An argument as it is written, and as it is kept.
abbrev pub written : Arg → Text
written (key, none) = key
written (key, some value) = key ++ b'=' ∷ value

abbrev pub kept : Arg → Arg
kept (key, none) = (key, none)
kept (key, some value) = (trim key, some (trim value))

-- No name is that of an argument before it.
abbrev pub Apart : List Arg → List Arg → Type 0
Apart before [] = Unit
Apart before (arg ∷ args) =
    All (λ other. str_eq other.0 arg.0 ≡ false) before × Apart (before ++ arg ∷ []) args

add_arg-written :
    (arg : Arg) (args : List Arg)
    → Plain arg.0
    → add_arg (find (b'=' ∷ []) (written arg)) (written arg) args
      ≡ ok (insert_arg (kept arg).0 (kept arg).1 args)
unfolding add_arg
add_arg-written (key, none) args h = rw (find-none key h)
add_arg-written (key, some value) args h =
    let whole : Text = key ++ b'=' ∷ value in
    rw (
      find-byte b'=' key value h,
      slice-part ⊥ 0 (length key) [] key (b'=' ∷ value) whole refl refl (omega arith),
      slice-part ⊥ (length key + 1) (length whole) (key ++ b'=' ∷ []) value [] whole
          (rw (append-nil, append_assoc key (b'=' ∷ []) value) refl) (length-append key (b'=' ∷ []))
          (omega (arith, length-append key (b'=' ∷ value))),
    )

insert_arg-new :
    (k : Text) (v : Option Text) (args : List Arg)
    → All (λ other. str_eq other.0 k ≡ false) args
    → insert_arg k v args ≡ args ++ (k, v) ∷ []
unfolding insert_arg
insert_arg-new k v [] apart = refl
insert_arg-new k v ((j, w) ∷ args) apart = rw (apart.0, insert_arg-new k v args apart.1)

collect_args-written :
    (args before : List Arg)
    → All (λ arg. Plain arg.0) args
    → Apart before (map kept args)
    → collect_args (map written args) before ≡ ok (before ++ map kept args)
unfolding collect_args
collect_args-written [] before plain apart = rw append-nil
collect_args-written (arg ∷ args) before plain apart =
    rw
      (
        add_arg-written arg before plain.0,
        insert_arg-new (kept arg).0 (kept arg).1 before apart.0,
        collect_args-written args (before ++ kept arg ∷ []) plain.1 apart.1,
      )
      (ap ok (append_assoc before (kept arg ∷ []) (map kept args)))

-- The macro keeps the arguments that it is given, each once and with its own value: `key=value` is
-- split at its first `=`, and both parts are trimmed; a name without `=` has no value and stays as it
-- is written. No key has an `=`, and no two arguments have the same name once they are trimmed.
pub parameter-args :
    (name : Text) (args : List Arg)
    → All (λ arg. Plain arg.0) args
    → Apart [] (map kept args)
    → parameter name (map written args) ≡ ok (record { name = name; args = some (map kept args) })
unfolding parameter
parameter-args name args plain apart = rw (collect_args-written args [] plain apart)

-- An argument `key=value` is split at its first `=`, and both parts are trimmed.
pub parameter-key_value :
    (name key value : Text)
    → Plain key
    → parameter name ((key ++ b'=' ∷ value) ∷ [])
      ≡ ok (record { name = name; args = some ((trim key, some (trim value)) ∷ []) })
parameter-key_value name key value h = parameter-args name ((key, some value) ∷ []) (h, tt) (tt, tt)

-- An argument without `=` is a name by itself, as it stands.
pub parameter-name :
    (name key : Text)
    → Plain key
    → parameter name (key ∷ []) ≡ ok (record { name = name; args = some ((key, none) ∷ []) })
parameter-name name key h = parameter-args name ((key, none) ∷ []) (h, tt) (tt, tt)
