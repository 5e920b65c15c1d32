-- ===== src/Tests/Requests.antt =====
-- Requests to the HTTP handler at concrete values.
use wb_orders.Base.{◌≡◌, ◌≢◌, refl, true, none, some, ok, err, arith, ℕ, ◌-◌, Option, [], ◌∷◌, ◌++◌}
use wb_orders.Base.Text.{Bytes, lit, is_blank, trim_space}
use wb_orders.Event.{request_id_length}
use wb_orders.Database.{done}
use wb_orders.Database.Inserts.{has_order, has_event}
use wb_orders.Order.Service.{bad_event, create}
use wb_orders.Order.Model.{Order}
use wb_orders.Order.Store.Reading.{IsReadBack}
use wb_orders.Order.Service.Total.{CanCreate}
use wb_orders.Http.{empty_writer, order_body}
use wb_orders.Order.Http.{
  Web, CreateRequest, Site, post_orders, get_order, read_command, chosen_id, create_handler, routes,
}
use wb_orders.Order.Http.RequestId.{IsTraceable, create-ne-request_id_length}
use wb_orders.Order.Http.Statuses.{Sends, Answer, create_handler-Answer}
use wb_orders.Order.Http.Recorded.{writes_header, perform, perform_all}
use wb_orders.Order.Http.Recorded.Answers.{OperationalProper, sent_status, routes-recorded}
use wb_orders.Order.Http.Journey.{traced, next_site, tables_after, post_get}
use wb_orders.Tests.Fixtures.{
  two_items, command, fresh, request, document, codec, server, strict, the_order, empty_db,
  store_answers,
}
use wb_orders.Tests.Orders.{orderable, event_IsValid, items_refer}

abbrev create_request : CreateRequest
create_request = record { customer_id = lit "7"; warehouse_id = lit "9"; items = two_items }

-- A body with one object; UUIDs are one digit, and the order's is kept as two.
abbrev parse : Bytes → Option ℕ
parse (a ∷ []) = some (a - 48)
parse (a ∷ b ∷ s) = some 11
parse [] = none

abbrev web : Web
web = record {
  decode = λ body. some create_request;
  at_end = λ body. true;
  parse_uuid = parse;
  uuid_text = λ id. lit "11";
  invalid_text = λ x. lit "invalid";
}

abbrev site : Site
site = record {
  web = web;
  codec = codec;
  server = server;
  answers = store_answers;
  fresh = fresh;
  first = done;
  second = done;
  later = empty_db;
  operational_handler = λ w. w;
  operational_pattern = [];
}

reads : read_command web document ≡ ok command
unfolding read_command
reads = refl

traceable : IsTraceable request
unfolding is_blank
traceable = record { visible = refl; brief = omega arith }

create-ne-request_id_length_example :
    let id = chosen_id [] request in
    IsTraceable id
    × ((create codec server store_answers fresh id command empty_db).0
        ≢ err (bad_event request_id_length))
create-ne-request_id_length_example =
    create-ne-request_id_length codec server store_answers fresh [] request command empty_db
      traceable

create_handler-Answer_example :
    let (answered, after) =
      create_handler web codec server store_answers fresh request document empty_writer empty_db in
    Answer web codec server store_answers fresh request document empty_writer empty_db answered
      after
create_handler-Answer_example =
    create_handler-Answer web codec server store_answers fresh request document empty_writer
      empty_db refl

chosen : chosen_id [] request ≡ request
unfolding chosen_id trim_space
chosen = refl

can_create : CanCreate codec store_answers fresh request command empty_db document document
unfolding has_order has_event
can_create = record {
  up = record { begin = refl; order = refl; items = λ i. refl; event = refl; commit = refl };
  refers = items_refer;
  new_order = refl;
  new_event = refl;
  valid = event_IsValid;
  carried = refl;
  marshalled = refl;
}

post_get_example :
    let (counted, answered, after) =
      routes site (lit "POST") [] request (post_orders document) empty_writer empty_db in
    let (counted2, answered2, after2) =
      routes
        (next_site site [] request document command empty_db document document)
        (lit "GET")
        []
        request
        (get_order (lit "11"))
        empty_writer
        after in
    Sends 201
      ((lit "Location", lit "/api/v1/orders/" ++ lit "11") ∷ [])
      (order_body the_order)
      (traced (chosen_id [] request))
      answered
    × ((found : Order) × IsReadBack server the_order found
        × Sends 200 [] (order_body found) (traced (chosen_id [] request)) answered2)
    × (after2 ≡ tables_after site [] request document command empty_db document document)
post_get_example =
    post_get site [] request document command empty_db document document (lit "POST") (lit "GET") []
      request traceable reads orderable (rw chosen can_create) refl strict

quiet_operations : OperationalProper site
unfolding perform_all
quiet_operations w = ([], tt, refl)

routes-recorded_example :
    let (counted, answered, _) =
      routes site (lit "POST") [] request (post_orders document) empty_writer empty_db in
    counted.status ≡ sent_status answered
routes-recorded_example =
    routes-recorded site (lit "POST") [] request (post_orders document) empty_writer empty_db refl
      quiet_operations

-- Two calls of WriteHeader, which no handler makes: the first status is sent, the second recorded.
twice :
    let answered = perform_all (writes_header 201 ∷ writes_header 500 ∷ []) empty_writer in
    (answered.recorded ≡ 500) × (answered.status ≡ 201)
unfolding perform_all perform
twice = (refl, refl)
