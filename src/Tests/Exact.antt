-- ===== src/Tests/Exact.antt =====
-- A codec whose documents of envelopes can be decoded: the numbers, the lengths and the texts, one after the other.
use wb_orders.Base.{ℕ, zero, suc, length, [], ◌∷◌, ◌++◌, Option, none, some}
use wb_orders.Base.Int.{ℤ, pos, negsuc}
use wb_orders.Base.Text.{Bytes}
use wb_orders.Event.{Envelope}
use wb_orders.Json.{Codec}
use wb_orders.Database.{Db}
use wb_orders.Order.Service.{create}
use wb_orders.System.{empty}
use wb_orders.Tests.Fixtures.{command, fresh, request, codec, server, store_answers}

split_at : ℕ → Bytes → Bytes × Bytes
split_at zero s = ([], s)
split_at (suc n) [] = ([], [])
split_at (suc n) (b ∷ s) = let (s1, s2) = split_at n s in (b ∷ s1, s2)

abbrev sign : ℤ → ℕ
sign (pos n) = 0
sign (negsuc n) = 1

abbrev size : ℤ → ℕ
size (pos n) = n
size (negsuc n) = n

abbrev integer : ℕ → ℕ → ℤ
integer zero n = pos n
integer (suc k) n = negsuc n

encode : Envelope → Bytes
encode e =
    e.event_id
    ∷ e.aggregate_id
    ∷ e.occurred_at
    ∷ sign e.version
    ∷ size e.version
    ∷ length e.event_type
    ∷ length e.request_id
    ∷ (e.event_type ++ (e.request_id ++ e.payload))

decode : Bytes → Option Envelope
unfolding split_at
decode (id ∷ about ∷ time ∷ k ∷ v ∷ m ∷ n ∷ s) =
    let (ty, rest) = split_at m s in
    let (rid, payload) = split_at n rest in
    some (record {
      event_id = id;
      event_type = ty;
      aggregate_id = about;
      request_id = rid;
      occurred_at = time;
      version = integer k v;
      payload = payload;
    })
decode s = none

abbrev exact : Codec
exact = record codec { marshal_envelope = λ e. some (encode e); unmarshal_envelope = decode }

abbrev created_db : Db
created_db = (create exact server store_answers fresh request command empty).1
