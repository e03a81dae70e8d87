-- ===== src/Httpx.antt =====
-- internal/httpx/httpx.go: the bounded reading of an error body, the overlay of the caller's options,
-- and what an exchange over HTTP gives back. The network itself is a parameter.
pub mod Overlay
use skyl.Prelude.{
  ℕ, ◌*◌, ◌^◌, String, Bool, not, Option, none, some, Bytes, take, str_eq, if◌then◌else◌,
}
use skyl.Errors.{GoError, wrapped, is_nil}
use skyl.Json.{Json, Fields, no_fields, field, set_field}

-- 64 << 10
abbrev pub max_error_body : ℕ
max_error_body = 64 * 2 ^ 10

-- `ReadErrorBody` of a body with these bytes; an error while reading is dropped.
unfoldable pub read_error_body : Bytes → Bytes
read_error_body body = take max_error_body body

-- `Merge`; a nil map is an empty one. The order in which Go visits the keys is that of the list.
unfoldable pub merge : Fields → Fields → Fields
merge dst no_fields = dst
merge dst (field k v extra) = merge (set_field k v dst) extra

-- The headers of a request, by their name.
abbrev pub Headers : Type 0
Headers = String → Option String

unfoldable pub set_header : String → String → Headers → Headers
set_header name value h other = if str_eq name other then some value else h other

-- A response: its status, its Retry-After header, and its body with the error that ends the reading
-- of it, or nil.
pub record HttpReply : Type 0 where
  pub status : ℕ
  pub retry_after : String
  pub body : Bytes
  pub read_err : GoError

-- What `http.Client.Do` returns.
pub data Exchange : Type 0 where
  unsent : GoError → Exchange
  replied : HttpReply → Exchange

-- The network, as `PostJSON` and `Get` use it.
pub record Network : Type 0 where
  pub post : String → Headers → Json → Exchange
  pub get : String → Headers → Exchange

-- A request as it is handed to `http.Client.Do`.
pub record HttpRequest : Type 0 where
  pub method : String
  pub url : String
  pub headers : Headers
  pub body : Option Json

-- What net/http and encoding/json do: whether a body is encoded and an address accepted (nil for
-- yes), and `Do`.
pub record Transport : Type 0 where
  pub marshal_err : Json → GoError
  pub request_err : String → GoError
  pub send : HttpRequest → Exchange

-- The loop `req.Header.Set(k, v)`: the caller's headers go over those that are there.
unfoldable pub set_headers : Headers → Headers → Headers
set_headers headers there name = elim (headers name) [ none ↦ there name | some v ↦ some v ]

abbrev pub no_headers : Headers
no_headers name = none

module _ (t : Transport) where
  -- `PostJSON`
  unfoldable pub post_json : String → Headers → Json → Exchange
  unfolding set_headers set_header
  post_json url headers body =
      let e = t.marshal_err body in
      let f = t.request_err url in
      let sent = t.send (record {
        method = "POST";
        url = url;
        headers = set_headers headers (
            set_header "Accept" "application/json"
              (set_header "Content-Type" "application/json" no_headers));
        body = some body;
      }) in
      if not (is_nil e)
      then unsent (wrapped "encoding request: " e)
      else if not (is_nil f)
      then unsent (wrapped "building request: " f)
      else sent

  -- `Get`
  unfoldable pub get : String → Headers → Exchange
  unfolding set_headers set_header
  get url headers =
      let f = t.request_err url in
      let sent = t.send (record {
        method = "GET";
        url = url;
        headers = set_headers headers (set_header "Accept" "application/json" no_headers);
        body = none;
      }) in
      if not (is_nil f) then unsent (wrapped "building request: " f) else sent

  -- The network that the adapters have.
  abbrev pub network_of : Network
  network_of = record { post = post_json; get = get }
