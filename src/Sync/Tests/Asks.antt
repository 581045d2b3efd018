-- ===== src/Sync/Tests/Asks.antt =====
-- The request of the opening handshake on the socket (websocket/src/sync/client.rs), on a concrete state.
use mathlib.Core.List.Perm
use websocket_std.Prelude.{
  ℕ, ◌+◌, ◌≡◌, refl, List, [], ◌∷◌, ◌++◌, map, none, some, true, All, arith, length,
}
use websocket_std.Core.Net.{would_block}
use websocket_std.Std.Str.{codes, trim}
use websocket_std.Std.Str.Visible.{all_between, no_byte, visible, printed, without}
use websocket_std.Http.Headers.{Text, lookup}
use websocket_std.Http.Request.Server.{server_request}
use websocket_std.Http.Response.Written.{IsField}
use websocket_std.Sync.Deps.{Deps, gen_key}
use websocket_std.Sync.Tcp.{TcpStream, accepted}
use websocket_std.Sync.State.{State, connected, start_init, handshake}
use websocket_std.Sync.EventLoop.Drained.{turns}
use websocket_std.Sync.EventLoop.Asking.{turns-ask}
use websocket_std.Prelude.{drop, ◌==◌, if◌then◌else◌, ◌≤◌}
use websocket_std.Core.Net.{got}
use websocket_std.Std.Str.{str_eq}
use websocket_std.Std.Str.Decimal.{decimal}
use websocket_std.Std.Utf8.{from_utf8_lossy_kept}
use websocket_std.Http.Headers.{insert}
use websocket_std.Http.Headers.Order.{Distinct}
use websocket_std.Http.Request
use websocket_std.Http.Request.Server.{server_request-serialize}
use websocket_std.Http.Response
use websocket_std.Http.Response.Written.{Written, write}
use websocket_std.Http.Response.RoundTrip.{read_back}
use websocket_std.Sync.Deps.{guid}
use websocket_std.Sync.State.{on_connect, opened}
use websocket_std.Sync.Connect.{sec_websocket_protocol}
use websocket_std.Sync.Connect.Opening.{Wanted, asked_headers, asked_request}
use websocket_std.Sync.EventLoop.Handshake.{Answers, turns-open}
use websocket_std.WsBasic.Header.{fin}
use websocket_std.Sync.State.{websocket_data}
use websocket_std.Sync.Tests.{frame, test_deps, silent, socket, at}

-- The encoding writes the letter A for a zero, and other bytes as they are.
abbrev letters : Deps
letters = record test_deps { base64_encode = map (λ b. if b == 0 then 65 else b) }

abbrev quiet : TcpStream
quiet = record socket { incoming = would_block ∷ []; writes = accepted ∷ [] }

abbrev chats : Wanted
chats = some (codes "chat", codes "v2" ∷ [])

abbrev fresh_client : State ℕ
fresh_client = record (at start_init socket) {
  connects = connected quiet true ∷ [];
  client = record (at start_init socket).client {
    stream = none;
    path = codes "/";
    recv_storage = [];
    input_events = [];
    output_events = [];
    acceptable_protocols = some (codes "chat" ∷ codes "v2" ∷ []);
  };
}

abbrev sixteen_letters : Text
sixteen_letters = codes "AAAAAAAAAAAAAAAA"

key_drawn : (gen_key letters 0).0 ≡ sixteen_letters
unfolding gen_key
key_drawn = refl

field :
    (name value : Text)
    → all_between 33 name ≡ true
    → no_byte 58 name ≡ true
    → all_between 32 value ≡ true
    → trim value ≡ value
    → IsField (name, value)
field name value a b c d = (visible name a, without 58 name b, printed value c, d)

asked_fields : All IsField (asked_headers sixteen_letters chats)
unfolding all_between no_byte trim
asked_fields = (
  field (codes "Upgrade") (codes "websocket") refl refl refl refl,
  (
    field (codes "Connection") (codes "Upgrade") refl refl refl refl,
    (
      field (codes "Sec-WebSocket-Key") sixteen_letters refl refl refl refl,
      (
        field (codes "Sec-WebSocket-Version") (codes "13") refl refl refl refl,
        (
          field (codes "User-agent") (codes "rust-websocket-std") refl refl refl refl,
          (field (codes "Sec-WebSocket-Protocol") (codes "chat, v2") refl refl refl refl, tt),
        ),
      ),
    ),
  ),
)

slash_visible : all_between 33 (codes "/") ≡ true
unfolding all_between
slash_visible = refl

turns-ask_example :
    (wire : List ℕ) × (fields : List (Text × Text)) × (turns letters silent 2 fresh_client
      ≡ record fresh_client {
        connects = [];
        draws = 0 + 1;
        client = record fresh_client.client {
          connection_status = handshake;
          websocket_key = (gen_key letters 0).0;
          output_events = [];
          stream = some (record quiet { incoming = []; writes = []; sent = [] ++ wire });
        };
      })
    × (server_request wire
        ≡ some (record {
          method = codes "GET";
          path = codes "/";
          version = codes "HTTP/1.1";
          fields = fields;
          rest = [];
        }))
    × (lookup (codes "Sec-WebSocket-Key") fields ≡ some (gen_key letters 0).0)
    × (lookup (codes "Sec-WebSocket-Protocol") fields ≡ some (codes "chat, v2"))
unfolding gen_key
turns-ask_example =
    turns-ask letters silent quiet [] [] [] chats fresh_client refl refl refl (omega arith) refl
      refl refl refl (visible (codes "/") slash_visible) asked_fields
      (Perm.refl (asked_headers (gen_key letters 0).0 chats))

-- What the server answers.
abbrev proof : Text
proof = sixteen_letters ++ guid

abbrev reply : Written
reply = record {
  version = codes "HTTP/1.1";
  status = 101;
  word = codes "Switching";
  words = codes "Protocols" ∷ [];
  fields =
      (codes "Sec-WebSocket-Accept", proof) ∷ (codes "Sec-WebSocket-Protocol", codes "chat") ∷ [];
  body = [];
}

reply-Answers : Answers letters (gen_key letters 0).0 reply
unfolding gen_key Response.header lookup insert str_eq all_between no_byte trim
reply-Answers = record {
  written = record {
    version = visible (codes "HTTP/1.1") refl;
    status = omega arith;
    word = visible (codes "Switching") refl;
    words = (visible (codes "Protocols") refl, tt);
    fields = (
      field (codes "Sec-WebSocket-Accept") proof refl refl refl refl,
      (field (codes "Sec-WebSocket-Protocol") (codes "chat") refl refl refl refl, tt),
    );
  };
  switches = refl;
  accepts = refl;
}

reply_small : length (72 ∷ drop 1 (write reply)) ≤ 1024
unfolding decimal
reply_small = omega arith

abbrev answered : TcpStream
answered = record quiet { incoming = would_block ∷ got (72 ∷ drop 1 (write reply)) ∷ [] }

abbrev starting_client : State ℕ
starting_client = record fresh_client {
  connects = connected answered true ∷ [];
  client = record fresh_client.client { output_events = websocket_data (frame fin) ∷ [] };
}

turns-open_example :
    turns letters silent 3 starting_client
    ≡ silent 1 (on_connect none) starting_client.client.cb_data (record starting_client {
      connects = [];
      draws = 0 + 1;
      client = record starting_client.client {
        connection_status = opened;
        websocket_key = (gen_key letters 0).0;
        protocol =
            Response.header letters.to_lowercase
              (read_back letters.to_lowercase reply)
              sec_websocket_protocol;
        recv_storage = [];
        stream = some (record answered {
          incoming = [];
          writes = [];
          sent =
              []
              ++ Request.serialize letters.order
                  (asked_request (codes "/") (gen_key letters 0).0 chats);
        });
      };
    })
unfolding gen_key from_utf8_lossy_kept
turns-open_example =
    turns-open letters silent answered [] 72 (drop 1 (write reply)) [] [] chats (frame fin ∷ [])
      reply 1 starting_client refl refl refl (omega arith) refl refl refl refl refl refl refl
      reply_small (visible (codes "/") slash_visible) asked_fields
      (Perm.refl (asked_headers (gen_key letters 0).0 chats)) reply-Answers

asked_once : Distinct (asked_headers sixteen_letters chats)
unfolding lookup str_eq
asked_once = (refl, (refl, (refl, (refl, (refl, (refl, tt))))))

server_request-serialize_example :
    let r = asked_request (codes "/") sixteen_letters chats in
    (server_request (Request.serialize letters.order r ++ 7 ∷ [])
      ≡ some (record {
        method = codes "GET";
        path = codes "/";
        version = codes "HTTP/1.1";
        fields = r.headers;
        rest = 7 ∷ [];
      }))
    × ((name : Text) → lookup name r.headers ≡ lookup name r.headers)
unfolding Request.new all_between
server_request-serialize_example =
    server_request-serialize letters.order (asked_request (codes "/") sixteen_letters chats)
      (visible (codes "/") refl) (visible (codes "HTTP/1.1") refl) asked_fields (7 ∷ [])
      (Perm.refl (asked_headers sixteen_letters chats)) asked_once
