-- ===== src/Order/Http/Journey.antt =====
-- An order that is posted is found: POST /api/v1/orders and then GET /api/v1/orders/{id}.
use wb_orders.Base.{◌≡◌, refl, arith, ok, some, [], ◌∷◌, ◌++◌}
use wb_orders.Base.Text.{Bytes, lit}
use wb_orders.Database.{Db, done}
use wb_orders.Order.Model.{Order, CreateCommand}
use wb_orders.Order.Model.Laws.{IsOrderable}
use wb_orders.Order.Store.Create.{with_order}
use wb_orders.Order.Store.BySku.{IsCollation}
use wb_orders.Order.Store.Reading.{as_stored, get-with_order, IsReadBack, as_stored-IsReadBack}
use wb_orders.Order.Service.Total.{CanCreate, order_of, event_of, create_total}
use wb_orders.Http.{Writer, empty_writer, order_body, set_header, write_json}
use wb_orders.Order.Http.{
  Site, post_orders, get_order, read_command, location, chosen_id, request_id_middleware, dispatch,
  create_handler, get_handler, routes,
}
use wb_orders.Order.Http.Statuses.{Sends, write_json-Sends}
use wb_orders.Order.Http.RequestId.{IsTraceable, chosen_id-IsTraceable, request_id_or_given}

abbrev pub traced : Bytes → Writer
traced id = set_header (lit "X-Request-ID") id empty_writer

module _ (x : Site) (header fresh body : Bytes) (command : CreateCommand) (db : Db)
    (raw payload : Bytes) where
  abbrev pub tables_after : Db
  tables_after =
      let id = chosen_id header fresh in
      with_order x.server x.answers (order_of x.fresh command) (event_of x.fresh id raw) payload db

  -- What the client asks for next, of a server that answers both queries from the tables as they are then.
  abbrev pub next_site : Site
  next_site = record x { first = done; second = done; later = tables_after }

  create_handler_total :
      (w : Writer)
      → IsTraceable fresh
      → read_command x.web body ≡ ok command
      → IsOrderable command
      → CanCreate x.codec x.answers x.fresh (chosen_id header fresh) command db raw payload
      → let o = order_of x.fresh command in
        create_handler x.web x.codec x.server x.answers x.fresh (chosen_id header fresh) body w db
        ≡ (
          write_json 201 (order_body o) (set_header (lit "Location") (location x.web o) w),
          tables_after,
        )
  unfolding create_handler
  create_handler_total w v read orderable can =
      let id = chosen_id header fresh in
      let given =
        request_id_or_given id x.fresh.request_id (chosen_id-IsTraceable header fresh v) in
      let done =
        create_total x.codec x.server x.answers x.fresh id command db raw payload given orderable
          can in
      rw (read, create_handler) (rw done refl)

  get_handler_total :
      (id : Bytes) (w : Writer)
      → CanCreate x.codec x.answers x.fresh (chosen_id header fresh) command db raw payload
      → x.web.parse_uuid (x.web.uuid_text x.fresh.order_id) ≡ some x.fresh.order_id
      → get_handler x.web x.server done done id
          (x.web.uuid_text x.fresh.order_id)
          tables_after
          tables_after
          w
        ≡ write_json 200 (order_body (as_stored x.server (order_of x.fresh command))) w
  unfolding get_handler
  get_handler_total id w can parsed =
      let found =
        get-with_order x.server x.answers (order_of x.fresh command)
          (event_of x.fresh (chosen_id header fresh) raw) payload db can.refers can.new_order in
      rw (parsed, get_handler) (rw found refl)

  -- A body that decodes to a command that is an order is posted to a server that carries out every
  -- statement, with identifiers that are new, a new request id that is neither blank nor too long, an event that is
  -- valid and can be marshalled, and tables in which no item lacks its order. It is answered 201 with that order in the body and its address in
  -- Location, and GET of the order's id, which uuid.Parse reads back, is then answered 200 with that order, its times
  -- as the columns keep them and its items in the order of their SKUs, if the server's collation puts no two texts
  -- each before the other, and leaves the tables alone.
  pub post_get :
      (method method2 header2 fresh2 : Bytes)
      → IsTraceable fresh
      → read_command x.web body ≡ ok command
      → IsOrderable command
      → CanCreate x.codec x.answers x.fresh (chosen_id header fresh) command db raw payload
      → x.web.parse_uuid (x.web.uuid_text x.fresh.order_id) ≡ some x.fresh.order_id
      → IsCollation x.server.collate
      → let (counted, answered, after) =
          routes x method header fresh (post_orders body) empty_writer db in
        let (counted2, answered2, after2) =
          routes next_site method2 header2 fresh2
            (get_order (x.web.uuid_text x.fresh.order_id))
            empty_writer
            after in
        let o = order_of x.fresh command in
        Sends 201
          ((lit "Location", lit "/api/v1/orders/" ++ x.web.uuid_text o.id) ∷ [])
          (order_body o)
          (traced (chosen_id header fresh))
          answered
        × ((found : Order) × IsReadBack x.server o found
            × Sends 200 [] (order_body found) (traced (chosen_id header2 fresh2)) answered2)
        × (after2 ≡ tables_after)
  unfolding routes request_id_middleware dispatch
  post_get method method2 header2 fresh2 v read orderable can parsed strict =
      let o = order_of x.fresh command in
      let mine = traced (chosen_id header fresh) in
      let posted = create_handler_total mine v read orderable can in
      let id = chosen_id header2 fresh2 in
      rw posted (
        write_json-Sends 201 _ (order_body o) mine _ (λ e. ground arith) refl refl refl,
        (
          as_stored x.server o,
          as_stored-IsReadBack x.server o strict,
          rw (get_handler_total id (traced id) can parsed) (
              write_json-Sends 200 [] _ (traced id) (traced id) (λ e. ground arith) refl refl refl),
        ),
        refl,
      )
