-- ===== src/Http.antt =====
-- What internal/order/http.go and internal/platform/health/server.go share: the response writer with
-- the JSON values written to it, and the end of an HTTP server. net/http and encoding/json are not code of
-- the repository: a header is kept as it is set, a body as the value that is encoded.
use wb_orders.Base.{ℕ, List, [], ◌∷◌, Option, none, some, ◌==◌, if◌then◌else◌}
use wb_orders.Base.Text.{Bytes, lit}
use wb_orders.Order.Model.{Order}

-- `errorResponse` is an `error_body` of code, message and request id; health answers a `status_body`.
pub data Body : Type 0 where
  order_body : Order → Body
  error_body : Bytes → Bytes → Bytes → Body
  status_body : Bytes → Body

-- A response in the making, with the field of the `statusWriter` that wraps it: `status` is what is sent, 0
-- before WriteHeader, and `recorded` the last status that WriteHeader was called with, 0 before that. Only the
-- metrics middleware reads it.
pub record Writer : Type 0 where
  pub headers : List (Bytes × Bytes)
  pub status : ℕ
  pub recorded : ℕ
  pub body : List Body

abbrev pub empty_writer : Writer
empty_writer = record { headers = []; status = 0; recorded = 0; body = [] }

abbrev pub set_header : Bytes → Bytes → Writer → Writer
set_header key value w = record w { headers = (key, value) ∷ w.headers }

-- `WriteHeader` of a statusWriter: each status is recorded, and only the first is sent.
abbrev pub write_header : ℕ → Writer → Writer
write_header status w = record w {
  status = if w.status == 0 then status else w.status;
  recorded = status;
}

-- `Write` of a statusWriter: the status is 200 if none was written.
unfoldable pub write : Body → Writer → Writer
write value w =
    let started = if w.recorded == 0 then write_header 200 w else w in
    record started { body = value ∷ started.body }

-- `&statusWriter{ResponseWriter: w}`.
abbrev pub wrap : Writer → Writer
wrap w = record w { recorded = 0 }

-- `writeJSON`, whose encoding error is dropped.
unfoldable pub write_json : ℕ → Body → Writer → Writer
write_json status value w =
    write value (write_header status (set_header (lit "Content-Type") (lit "application/json") w))

-- Which case of the select in `ListenAndServe` and `Serve` is taken: the server has ended with an error,
-- `none` for http.ErrServerClosed, or the context has ended, and Shutdown returns an error or not.
pub data ServerEnd : Type 0 where
  ended : Option Bytes → ServerEnd
  shut_down : Option Bytes → ServerEnd

pub data ServerError : Type 0 where
  serve_failed shutdown_failed : Bytes → ServerError

-- `order.ListenAndServe`.
unfoldable pub listen_and_serve : ServerEnd → Option ServerError
listen_and_serve (ended none) = none
listen_and_serve (ended (some x)) = some (serve_failed x)
listen_and_serve (shut_down none) = none
listen_and_serve (shut_down (some x)) = some (shutdown_failed x)
