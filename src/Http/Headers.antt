-- ===== src/Http/Headers.antt =====
-- `HashMap<String, String>` (websocket/src/http/commons.rs, `Headers`) as an association list with
-- one entry for a key. The order of the entries has no meaning.
pub mod Lookup
pub mod Order
use websocket_std.Prelude.{List, [], ◌∷◌, ℕ, Option, none, some, if◌then◌else◌}
use websocket_std.Std.Str.{str_eq}

abbrev pub Text : Type 0
Text = List ℕ

abbrev pub Headers : Type 0
Headers = List (Text × Text)

unfoldable pub insert : Text → Text → Headers → Headers
insert k v [] = (k, v) ∷ []
insert k v ((j, w) ∷ m) = if str_eq j k then (j, v) ∷ m else (j, w) ∷ insert k v m

unfoldable pub lookup : Text → Headers → Option Text
lookup k [] = none
lookup k ((j, w) ∷ m) = if str_eq j k then some w else lookup k m

-- `END_LINE`.
abbrev pub end_line : Text
end_line = 13 ∷ 10 ∷ []
