-- ===== src/Http/Request.antt =====
-- websocket/src/http/request.rs. The order in which a `HashMap` is iterated is not specified: it is
-- the argument `order`, which gives the entries in some order.
pub mod Server
use websocket_std.Prelude.{ℕ, List, [], ◌∷◌, ◌++◌, Option, none, some}
use websocket_std.Std.Str.{codes}
use websocket_std.Http.Headers.{Text, Headers, end_line}

pub data Method : Type 0 where
  get : Method

abbrev pub method_to_string : Method → Text
method_to_string get = codes "GET"

pub record Request : Type 0 where
  pub method : Method
  pub path : Text
  pub version : Text
  pub headers : Headers

abbrev or_empty : Option Headers → Headers
or_empty none = []
or_empty (some map) = map

unfoldable pub new : Method → Text → Text → Option Headers → Request
new method path version headers = record {
  method = method;
  path = path;
  version = version;
  headers = or_empty headers;
}

-- The loop over the headers.
unfoldable pub header_lines : List (Text × Text) → Text
header_lines [] = []
header_lines ((key, value) ∷ rest) =
    key ++ (codes ": " ++ (value ++ (end_line ++ header_lines rest)))

unfoldable pub serialize : (Headers → List (Text × Text)) → Request → List ℕ
unfolding header_lines
serialize order r =
    method_to_string r.method
    ++ (codes " "
        ++ (r.path
            ++ (codes " "
                ++ (r.version ++ (end_line ++ (header_lines (order r.headers) ++ end_line))))))
