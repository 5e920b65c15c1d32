-- ===== src/Order/Http.antt =====
-- internal/order/http.go: the handlers, the middleware and the routes, and the request id of
-- internal/platform/correlation/context.go. JSON decoding, UUIDs and the multiplexer are arguments.
use Prim.Native.String.{String}
use wb_orders.Base.{
  ℕ, ◌≡◌, Bool, true, false, not, ◌||◌, length, List, [], ◌∷◌, ◌++◌, Option, none, some, ltb, ◌==◌,
  Result, ok, err, ◌>>=◌, ◌>>◌, fail_if, if◌then◌else◌,
}
use wb_orders.Base.Text.{Bytes, lit, trim_space}
use wb_orders.Event.{Uuid, Time}
use wb_orders.Json.{Codec, Server}
use wb_orders.Database.{Db, Reply}
use wb_orders.Database.Inserts.{or_fail}
use wb_orders.Order.Model.{Item, Order, CreateCommand, Invalid}
use wb_orders.Order.Store
use wb_orders.Order.Store.{Answers, get, not_found}
use wb_orders.Order.Service
use wb_orders.Order.Service.{Fresh, invalid, bad_event, not_created}
use wb_orders.Http.{Writer, Body, order_body, error_body, set_header, wrap, write_json}
pub mod RequestId
pub mod Statuses
pub mod Journey
pub mod Recorded

-- `createRequest`.
pub record CreateRequest : Type 0 where
  pub customer_id : Bytes
  pub warehouse_id : Bytes
  pub items : List Item

-- What encoding/json makes of a body under its limit, with unknown fields refused, and whether a second
-- Decode finds the end of the body; uuid.Parse and UUID.String; and the text of a validation error.
pub record Web : Type 0 where
  pub decode : Bytes → Option CreateRequest
  pub at_end : Bytes → Bool
  pub parse_uuid : Bytes → Option Uuid
  pub uuid_text : Uuid → Bytes
  pub invalid_text : Invalid → Bytes

-- `writeError`; the request id is that of the context.
unfoldable pub write_error : Bytes → ℕ → Bytes → Bytes → Writer → Writer
write_error request_id status code message = write_json status (error_body code message request_id)

-- The checks of `create` before the service is called: the message of a refusal, or the command.
unfoldable pub read_command : Web → Bytes → Result Bytes CreateCommand
read_command web body = do
  request ← or_fail (web.decode body) (lit "request body is not valid JSON")
  fail_if (not (web.at_end body)) (lit "request body must contain one JSON object")
  customer ← or_fail (web.parse_uuid request.customer_id) (lit "customer_id must be a UUID")
  warehouse ← or_fail (web.parse_uuid request.warehouse_id) (lit "warehouse_id must be a UUID")
  ok (record { customer_id = customer; warehouse_id = warehouse; items = request.items })

abbrev pub location : Web → Order → Bytes
location web o = lit "/api/v1/orders/" ++ web.uuid_text o.id

-- The answer to what the service has returned.
abbrev pub reply_created : Web → Bytes → Writer → Result Service.Error Order → Writer
reply_created web request_id w (ok o) =
    write_json 201 (order_body o) (set_header (lit "Location") (location web o) w)
reply_created web request_id w (err (invalid x)) =
    write_error request_id 422 (lit "validation_error") (web.invalid_text x) w
reply_created web request_id w (err (bad_event x)) =
    write_error request_id 500 (lit "internal_error") (lit "could not create order") w
reply_created web request_id w (err (not_created x)) =
    write_error request_id 500 (lit "internal_error") (lit "could not create order") w

-- `HTTPHandler.create`; `request_id` is what the context carries.
unfoldable pub create_handler :
    Web → Codec → Server → Answers → Fresh → Bytes → Bytes → Writer → Db → Writer × Db
create_handler web c s a f request_id body w db = elim (read_command web body) [
  | err message ↦ (write_error request_id 400 (lit "invalid_request") message w, db)
  | ok command ↦
      let (r, after) = Service.create c s a f request_id command db in
      (reply_created web request_id w r, after)
]

abbrev pub reply_error : Bytes → Writer → Store.Error → Writer
reply_error request_id w Store.not_found =
    write_error request_id 404 (lit "not_found") (lit "order was not found") w
reply_error request_id w x =
    write_error request_id 500 (lit "internal_error") (lit "could not get order") w

abbrev pub reply_found : Bytes → Writer → Result Store.Error Order → Writer
reply_found request_id w (ok o) = write_json 200 (order_body o) w
reply_found request_id w (err x) = reply_error request_id w x

-- `HTTPHandler.get`; `id` is the path's value, and the two queries see the tables at two times.
unfoldable pub get_handler :
    Web → Server → Reply → Reply → Bytes → Bytes → Db → Db → Writer → Writer
get_handler web s first second request_id id db later w = elim (web.parse_uuid id) [
  | none ↦ write_error request_id 400 (lit "invalid_request") (lit "order id must be a UUID") w
  | some key ↦ reply_found request_id w (get s first second key db later)
]

-- A context, with the value that `WithRequestID` puts into it.
abbrev pub Context : Type 0
Context = Option Bytes

abbrev pub with_request_id : Context → Bytes → Context
with_request_id ctx id = some id

abbrev pub request_id : Context → Bytes
request_id none = []
request_id (some id) = id

-- The middleware's choice: the trimmed header, or a new id if that is empty or too long.
unfoldable pub chosen_id : Bytes → Bytes → Bytes
chosen_id header fresh =
    let trimmed = trim_space header in
    if length trimmed == 0 || ltb 128 (length trimmed) then fresh else trimmed

-- `requestIDMiddleware`, over a handler that may change `S`.
unfoldable pub request_id_middleware :
    {S : Type 0}
    → Bytes
    → Bytes
    → (Context → Writer → S → Writer × S)
    → Context
    → Writer
    → S
    → Writer × S
request_id_middleware header fresh next ctx w =
    let id = chosen_id header fresh in
    next (with_request_id ctx id) (set_header (lit "X-Request-ID") id w)

-- A counted request: its method, route and status.
pub record Counted : Type 0 where
  pub method : Bytes
  pub route : Bytes
  pub status : ℕ

-- `metricsMiddleware` once the request is served by `w`, a statusWriter: the pattern is that of the
-- multiplexer, empty if there is none.
unfoldable pub count_request : Bytes → Bytes → Writer → Counted
count_request method pattern w = record {
  method = method;
  route = if length pattern == 0 then lit "unmatched" else pattern;
  status = if w.recorded == 0 then 200 else w.recorded;
}

-- What the multiplexer makes of a request: the three registrations of `Routes`.
pub data Route : Type 0 where
  post_orders : Bytes → Route
  get_order : Bytes → Route
  operational : Route

abbrev pub pattern_of : Bytes → Route → Bytes
pattern_of outer (post_orders body) = lit "POST /api/v1/orders"
pattern_of outer (get_order id) = lit "GET /api/v1/orders/{id}"
pattern_of outer operational = outer

-- What one request meets: the interfaces, the server's answers, and the operational handler, which does
-- not touch the tables, with the pattern that it is reached by.
pub record Site : Type 0 where
  pub web : Web
  pub codec : Codec
  pub server : Server
  pub answers : Answers
  pub fresh : Fresh
  pub first : Reply
  pub second : Reply
  pub later : Db
  pub operational_handler : Writer → Writer
  pub operational_pattern : Bytes

unfoldable pub dispatch : Site → Route → Context → Writer → Db → Writer × Db
dispatch x (post_orders body) ctx w db =
    create_handler x.web x.codec x.server x.answers x.fresh (request_id ctx) body w db
dispatch x (get_order id) ctx w db =
    (get_handler x.web x.server x.first x.second (request_id ctx) id db x.later w, db)
dispatch x operational ctx w db = (x.operational_handler w, db)

-- `Routes`, for one request: its method, its X-Request-ID, and the id that would be new.
unfoldable pub routes : Site → Bytes → Bytes → Bytes → Route → Writer → Db → Counted × Writer × Db
routes x method header fresh route w db =
    let (answered, after) =
      request_id_middleware header fresh (dispatch x route) none (wrap w) db in
    (count_request method (pattern_of x.operational_pattern route) answered, answered, after)
