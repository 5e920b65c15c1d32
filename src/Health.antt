-- ===== src/Health.antt =====
-- internal/platform/health/server.go: the probes, and the end of their server.
use wb_orders.Base.{Option, none, some}
use wb_orders.Base.Text.{Bytes, lit}
use wb_orders.Http.{Writer, status_body, write_json, ServerEnd, ended, shut_down}

-- The patterns of the handler; `other` is a request that none of them fits.
pub data Probe : Type 0 where
  health ready metrics other : Probe

-- The readiness check's error, if it has one.
abbrev pub readiness : Option Bytes → Writer → Writer
readiness none = write_json 200 (status_body (lit "ready"))
readiness (some x) = write_json 503 (status_body (lit "not_ready"))

-- `Handler`. The metrics page and the answer to other requests are third parties', `outer`.
unfoldable pub handler : Option Bytes → (Probe → Writer → Writer) → Probe → Writer → Writer
handler checked outer health w = write_json 200 (status_body (lit "ok")) w
handler checked outer ready w = readiness checked w
handler checked outer metrics w = outer metrics w
handler checked outer other w = outer other w

-- `Serve`: the errors are returned as they are.
unfoldable pub serve : ServerEnd → Option Bytes
serve (ended x) = x
serve (shut_down x) = x
