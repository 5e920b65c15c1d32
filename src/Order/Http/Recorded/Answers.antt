-- ===== src/Order/Http/Recorded/Answers.antt =====
-- The status that the metrics count is the status that the client gets.
use wb_orders.Base.{
  ℕ, ◌≡◌, ◌≢◌, refl, sym, inl, inr, arith, false, List, [], ◌∷◌, none, Option-cases, Result,
  Result-cases, ok, err, ◌==◌, if◌then◌else◌,
}
use wb_orders.Base.Text.{Bytes, lit}
use wb_orders.Database.{Db}
use wb_orders.Order.Model.{Order}
use wb_orders.Order.Store
use wb_orders.Order.Store.{get, not_found}
use wb_orders.Order.Service
use wb_orders.Order.Service.{invalid, bad_event, not_created}
use wb_orders.Http.{Writer, Body, set_header, write, wrap, write_json}
use wb_orders.Order.Http.{
  Web, Context, count_request, write_error, read_command, reply_created, create_handler,
  reply_error, reply_found, get_handler, chosen_id, with_request_id, request_id_middleware, Route,
  post_orders, get_order, operational, pattern_of, Site, dispatch, routes,
}
use wb_orders.Order.Http.Recorded.{
  Call, sets_header, writes_header, writes, perform, perform_all, IsProper, Agrees,
  perform_all-Agrees,
}

-- A writer that some calls lead to, of which at most one, before any body, writes a status.
abbrev pub Proper : Writer → Writer → Type 0
Proper w answered = (calls : List Call) × IsProper false calls × (answered ≡ perform_all calls w)

write_json-Proper :
    (status : ℕ) (value : Body) (w : Writer) → status ≢ 0 → Proper w (write_json status value w)
unfolding write_json perform_all perform write
write_json-Proper status value w h = (
  sets_header (lit "Content-Type") (lit "application/json")
      ∷ writes_header status
      ∷ writes value
      ∷ [],
  (refl, h, tt),
  ground arith,
)

set_header-Proper :
    (key value : Bytes) (w answered : Writer)
    → Proper (set_header key value w) answered
    → Proper w answered
unfolding perform_all perform
set_header-Proper key value w answered (calls, proper, same) =
    (sets_header key value ∷ calls, proper, same)

write_error-Proper :
    (id : Bytes) (status : ℕ) (code message : Bytes) (w : Writer)
    → status ≢ 0
    → Proper w (write_error id status code message w)
unfolding write_error
write_error-Proper id status code message w h = write_json-Proper status _ w h

reply_created-Proper :
    (web : Web) (id : Bytes) (w : Writer) (r : Result Service.Error Order)
    → Proper w (reply_created web id w r)
reply_created-Proper web id w (ok o) =
    set_header-Proper (lit "Location") _ w _ (write_json-Proper 201 _ _ (λ e. ground arith))
reply_created-Proper web id w (err (invalid x)) =
    write_error-Proper id 422 _ _ w (λ e. ground arith)
reply_created-Proper web id w (err (bad_event x)) =
    write_error-Proper id 500 _ _ w (λ e. ground arith)
reply_created-Proper web id w (err (not_created x)) =
    write_error-Proper id 500 _ _ w (λ e. ground arith)

reply_error-Proper : (id : Bytes) (w : Writer) (x : Store.Error) → Proper w (reply_error id w x)
reply_error-Proper id w Store.not_found = write_error-Proper id 404 _ _ w (λ e. ground arith)
reply_error-Proper id w x = write_error-Proper id 500 _ _ w (λ e. ground arith)

reply_found-Proper :
    (id : Bytes) (w : Writer) (r : Result Store.Error Order) → Proper w (reply_found id w r)
reply_found-Proper id w (ok o) = write_json-Proper 200 _ w (λ e. ground arith)
reply_found-Proper id w (err x) = reply_error-Proper id w x

-- What the operational handler does to a writer.
abbrev pub OperationalProper : Site → Type 0
OperationalProper x = (w : Writer) → Proper w (x.operational_handler w)

dispatch-Proper :
    (x : Site) (route : Route) (ctx : Context) (w : Writer) (db : Db)
    → OperationalProper x
    → Proper w (dispatch x route ctx w db).0
unfolding dispatch create_handler get_handler
dispatch-Proper x (post_orders body) ctx w db outer =
    elim (Result-cases (read_command x.web body)) [
      | inr (message, bad) ↦
          rw (bad, create_handler, get_handler) (write_error-Proper _ 400 _ _ w (λ e. ground arith))
      | inl (command, good) ↦
          rw (good, create_handler, get_handler) (reply_created-Proper x.web _ w _)
    ]
dispatch-Proper x (get_order id) ctx w db outer = elim (Option-cases (x.web.parse_uuid id)) [
  | inl bad ↦
      rw (bad, create_handler, get_handler) (write_error-Proper _ 400 _ _ w (λ e. ground arith))
  | inr (key, good) ↦ rw (good, create_handler, get_handler) (reply_found-Proper _ w _)
]
dispatch-Proper x operational ctx w db outer = outer w

-- The status that the client gets: net/http sends 200 if none was written.
abbrev pub sent_status : Writer → ℕ
sent_status w = if w.status == 0 then 200 else w.status

count_request-Proper :
    (method pattern : Bytes) (w answered : Writer)
    → w.status ≡ 0
    → Proper (wrap w) answered
    → (count_request method pattern answered).status ≡ sent_status answered
unfolding count_request
count_request-Proper method pattern w answered new (calls, proper, same) =
    let kept : Agrees (perform_all calls (wrap w)) =
      perform_all-Agrees calls (wrap w) (sym new) (rw new proper) in
    let agreed : Agrees answered = rw same kept in rw agreed refl

-- For each request, if the operational handler writes at most one status and does so before any body, then the
-- request is counted with the status that the client gets.
pub routes-recorded :
    (x : Site) (method header fresh : Bytes) (route : Route) (w : Writer) (db : Db)
    → w.status ≡ 0
    → OperationalProper x
    → let (counted, answered, _) = routes x method header fresh route w db in
      counted.status ≡ sent_status answered
unfolding routes request_id_middleware
routes-recorded x method header fresh route w db new outer =
    let id = chosen_id header fresh in
    count_request-Proper method (pattern_of x.operational_pattern route) w _ new (
      set_header-Proper (lit "X-Request-ID") id (wrap w) _
        (dispatch-Proper x route (with_request_id none id) _ db outer))
