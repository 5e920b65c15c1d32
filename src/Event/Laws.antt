-- ===== src/Event/Laws.antt =====
-- What a valid envelope is, and when event.New gives one.
use wb_orders.Base.{
  ◌≤◌, ◌≡◌, ◌≢◌, ◌↔◌, ◌⊎◌, ◌<◌, Option, some, none, refl, false, true, [], length, some,
  Result-cases, inl, inr, ok, err, arith,
}
use wb_orders.Base.Int.{pos}
use wb_orders.Base.Text.{Bytes, is_blank}
use wb_orders.Event.{
  Uuid, Time, Envelope, zero_time, uuid_nil, validate, new, unchecked, Error, event_id_required,
  aggregate_id_required, event_type_required, request_id_length, occurred_at_required,
  unsupported_version, payload_required, payload_not_marshalled,
}

pub record IsValid (e : Envelope) : Type 0 where
  pub identified : e.event_id ≢ uuid_nil
  pub addressed : e.aggregate_id ≢ uuid_nil
  pub typed : e.event_type ≢ []
  pub traced : is_blank e.request_id ≡ false
  pub brief : length e.request_id ≤ 128
  pub dated : e.occurred_at ≢ zero_time
  pub first_version : e.version ≡ pos 1
  pub filled : e.payload ≢ []

-- `Validate` accepts exactly the valid envelopes.
pub validate-IsValid : (e : Envelope) → (validate e ≡ ok tt) ↔ IsValid e
unfolding validate
validate-IsValid e = (λ h. ground arith, λ v. ground arith)

-- What is wrong with an envelope that is refused with an error.
abbrev pub Violates : Envelope → Error → Type 0
Violates e event_id_required = e.event_id ≡ uuid_nil
Violates e aggregate_id_required = e.aggregate_id ≡ uuid_nil
Violates e event_type_required = e.event_type ≡ []
Violates e request_id_length = (is_blank e.request_id ≡ true) ⊎ (128 < length e.request_id)
Violates e occurred_at_required = e.occurred_at ≡ zero_time
Violates e (unsupported_version v) = (e.version ≡ v) × (v ≢ pos 1)
Violates e payload_required = e.payload ≡ []
Violates e payload_not_marshalled = ⊥

-- Every refusal of `Validate` names a condition that the envelope does not meet.
pub validate-Violates : (e : Envelope) (x : Error) → validate e ≡ err x → Violates e x
unfolding validate
validate-Violates e event_id_required h = ground arith
validate-Violates e aggregate_id_required h = ground arith
validate-Violates e event_type_required h = ground arith
validate-Violates e request_id_length h = ground arith
validate-Violates e occurred_at_required h = ground arith
validate-Violates e (unsupported_version v) h = ground arith
validate-Violates e payload_required h = ground arith
validate-Violates e payload_not_marshalled h = ground arith

-- With a payload that could be marshalled, `New` gives the envelope made of its arguments, and gives it
-- exactly if that envelope is valid.
pub new-IsValid :
    (id : Uuid) (now : Time) (ty : Bytes) (agg : Uuid) (rid raw : Bytes) (e : Envelope)
    → (new id now ty agg rid (some raw) ≡ ok e)
      ↔ (IsValid e × (e ≡ unchecked id now ty agg rid raw))
unfolding new
new-IsValid id now ty agg rid raw e =
    elim (Result-cases (validate (unchecked id now ty agg rid raw))) [
      | inl (tt, good) ↦ (
        λ h.
            let same : e ≡ unchecked id now ty agg rid raw = ground arith in
            (rw same ((validate-IsValid _).0 good), same),
        λ (v, same). ground arith,
      )
      | inr (x, bad) ↦ (λ h. ground arith, λ (v, same). ground (arith, (validate-IsValid e).1 v))
    ]

-- The same with json.Marshal's result open: an envelope comes of a payload that could be marshalled.
pub new-ok :
    (id : Uuid) (now : Time) (ty : Bytes) (agg : Uuid) (rid : Bytes) (marshalled : Option Bytes)
    (e : Envelope)
    → new id now ty agg rid marshalled ≡ ok e
    → (raw : Bytes) × (marshalled ≡ some raw) × IsValid e × (e ≡ unchecked id now ty agg rid raw)
unfolding new
new-ok id now ty agg rid none e h = cc
new-ok id now ty agg rid (some raw) e h =
    let (v, same) = (new-IsValid id now ty agg rid raw e).0 h in (raw, refl, v, same)
