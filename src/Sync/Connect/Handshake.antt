-- ===== src/Sync/Connect/Handshake.antt =====
-- The opening handshake (websocket/src/sync/client.rs): the request of `start_init`, and which
-- responses `handle_recv_http_response` accepts.
use websocket_std.Prelude.{
  ◌≡◌, refl, sym, ◌∙◌, ◌++◌, Option, none, some, true, ◌==◌, ==_iff, Bool-cases, inl, inr,
}
use mathlib.Core.Bool.{or-true}
use websocket_std.Outcome.{err, hand_shake}
use websocket_std.Std.Str.{str_eq}
use websocket_std.Std.Str.Equality.{str_eq_refl, str_eq_sound}
use websocket_std.Http.Headers.{Text}
use websocket_std.Http.Response
use websocket_std.Http.Response.{Response}
use websocket_std.Sync.Deps.{Deps, verify_key, guid}
use websocket_std.Sync.State.{State, on_connect, React, handshake, opened}
use websocket_std.Sync.Exec.{notify}
use websocket_std.Sync.Connect.{
  sec_websocket_accept, sec_websocket_protocol, open_connection, accept_response,
  handle_response_at, handle_recv_http_response,
}

-- What RFC 6455 asks of the server's answer to a key.
pub record Accepts (deps : Deps) (key : Text) (response : Response) : Type 0 where
  pub accept : Text
  pub has_accept : Response.header deps.to_lowercase response sec_websocket_accept ≡ some accept
  pub proves_key : accept ≡ deps.base64_encode (deps.sha1 (key ++ guid))
  pub switches : response.status_code ≡ 101

module _ {T : Type 0} (deps : Deps) (react : React T) (response : Response) (s : State T) where
  at_handshake :
      s.client.connection_status ≡ handshake
      → handle_recv_http_response deps react response s
        ≡ accept_response deps react response
            (Response.header deps.to_lowercase response sec_websocket_accept)
            s
  unfolding handle_recv_http_response handle_response_at
  at_handshake e = rw e

  -- In the state HANDSHAKE, a response with status 101 whose accept header proves the key opens the
  -- connection, with the protocol that it names, and is told to the callback, if there is one.
  pub handle_recv_http_response-opens :
      s.client.connection_status ≡ handshake
      → Accepts deps s.client.websocket_key response
      → handle_recv_http_response deps react response s
        ≡ notify react (on_connect response.body) (record s {
          client = record s.client {
            connection_status = opened;
            protocol = Response.header deps.to_lowercase response sec_websocket_protocol;
          };
        })
  unfolding accept_response open_connection verify_key
  handle_recv_http_response-opens e a =
      let proved : str_eq (deps.base64_encode (deps.sha1 (s.client.websocket_key ++ guid))) a.accept
          ≡ true =
        rw a.proves_key
          (str_eq_refl (deps.base64_encode (deps.sha1 (s.client.websocket_key ++ guid)))) in
      at_handshake e ∙ rw (a.has_accept, proved, a.switches)

  refused :
      ¬ Accepts deps s.client.websocket_key response
      → (accept : Option Text)
      → Response.header deps.to_lowercase response sec_websocket_accept ≡ accept
      → accept_response deps react response accept s ≡ (err hand_shake, s)
  unfolding accept_response verify_key
  refused n none e = refl
  refused n (some accept) e =
      let sum : Text = deps.base64_encode (deps.sha1 (s.client.websocket_key ++ guid)) in
      elim (Bool-cases (str_eq sum accept)) [
        | inr wrong ↦ rw wrong
        | inl right ↦ elim (Bool-cases (response.status_code == 101)) [
          | inr other ↦ rw (right, other, or-true (response.status_code == 0))
          | inl switching ↦ absurd (
              n (record {
                accept = accept;
                has_accept = e;
                proves_key = sym (str_eq_sound sum accept right);
                switches = (==_iff response.status_code 101).0 switching;
              }))
        ]
      ]

  -- In the state HANDSHAKE, a response that has no accept header, whose accept header does not prove
  -- the key, or whose status is not 101, is an error and changes nothing.
  pub handle_recv_http_response-refuses :
      s.client.connection_status ≡ handshake
      → ¬ Accepts deps s.client.websocket_key response
      → handle_recv_http_response deps react response s ≡ (err hand_shake, s)
  unfolding accept_response verify_key
  handle_recv_http_response-refuses e n =
      at_handshake e
      ∙ refused n (Response.header deps.to_lowercase response sec_websocket_accept) refl
