-- ===== src/Registrations/Scanning/Found.antt =====
-- A scan that finds a ticket finds a row of the table.
use uevent_backend.Base.{ℕ, ◌≡◌, ◌∙◌, Bool, true, false, Option, none, some, List, [], ◌∷◌, arith}
use uevent_backend.Base.Texts.{Text, strip}
use uevent_backend.Common.Errors.{Result, ok, >>=-eq-ok, or_raise, or_raise-eq-ok, does_not_exist}
use uevent_backend.Common.Host.{Host, JsonDict}
use uevent_backend.Orm.Table.{first, find, select}
use uevent_backend.Orm.Table.Laws.{IsKeyed, find-first}
use uevent_backend.Registrations.Models.{Ticket}
use uevent_backend.Registrations.State.{Db, ticket_key, live_ticket}
use uevent_backend.Registrations.Qr.{
  lock_for_checkin, ticket_by_key, resolve_token, resolve_decoded, resolve_ticket_from_payload,
  payload_value,
}
use uevent_backend.Registrations.Checkin.{
  Scan, only, resolve_ticket_from_email, none_if_missing, resolved, resolve_code, resolve_compared,
  resolve_payload, resolve, Source, by_payload, by_code, by_email, by_nothing, source_of, look_up,
}

-- The row of its key.
abbrev pub IsRow : List Ticket → Ticket → Type 0
IsRow tickets t = find ticket_key t.id tickets ≡ some t

-- Whatever a call returns is a row.
abbrev Returns : List Ticket → Result Ticket → Type 0
Returns tickets r = (t : Ticket) → r ≡ ok t → IsRow tickets t

or_raise-first :
    (p : Ticket → Bool) (tickets : List Ticket)
    → IsKeyed ticket_key tickets
    → Returns tickets (or_raise (first p tickets) does_not_exist)
or_raise-first p tickets keyed t h =
    find-first ticket_key p tickets t keyed (or_raise-eq-ok _ does_not_exist t h)

first-of-select :
    (p : Ticket → Bool) (tickets : List Ticket) (t : Ticket) (rest : List Ticket)
    → select p tickets ≡ t ∷ rest
    → first p tickets ≡ some t
unfolding select first
first-of-select p [] t rest h = cc
first-of-select p (u ∷ tickets) t rest h = ground (arith, first-of-select p tickets t rest)

only-eq-ok : (rows : List Ticket) (t : Ticket) → only rows ≡ ok t → rows ≡ t ∷ []
unfolding only
only-eq-ok [] t h = cc
only-eq-ok (u ∷ []) t h = cc
only-eq-ok (u ∷ v ∷ rows) t h = cc

none_if_missing-eq-ok :
    (r : Result Ticket) (t : Ticket) → none_if_missing r ≡ ok (some t) → r ≡ ok t
none_if_missing-eq-ok r t h = ground arith

module _ (h : Host) (db : Db) (keyed : IsKeyed ticket_key db.tickets) where
  lock_for_checkin-IsRow : (code : Text) → Returns db.tickets (lock_for_checkin code db.tickets)
  unfolding lock_for_checkin
  lock_for_checkin-IsRow code = or_raise-first _ db.tickets keyed

  resolve_token-IsRow : (token : JsonDict) → Returns db.tickets (resolve_token h token db.tickets)
  unfolding resolve_token ticket_by_key live_ticket
  resolve_token-IsRow token t e =
      let (_, _, typed) = >>=-eq-ok _ _ t e in
      let (_, _, unexpired) = >>=-eq-ok _ _ t typed in
      let (_, _, parsed) = >>=-eq-ok _ _ t unexpired in or_raise-first _ db.tickets keyed t parsed

  resolve_decoded-IsRow :
      (value : Text) (d : Option JsonDict)
      → Returns db.tickets (resolve_decoded h value d db.tickets)
  unfolding resolve_decoded
  resolve_decoded-IsRow value none = lock_for_checkin-IsRow value
  resolve_decoded-IsRow value (some []) = lock_for_checkin-IsRow value
  resolve_decoded-IsRow value (some (field ∷ fields)) = resolve_token-IsRow (field ∷ fields)

  resolve_ticket_from_email-IsRow :
      (event_id : ℕ) (email : Text)
      → Returns db.tickets (resolve_ticket_from_email h event_id email db)
  unfolding resolve_ticket_from_email
  resolve_ticket_from_email-IsRow event_id email t e =
      find-first ticket_key _ db.tickets t keyed
        (first-of-select _ db.tickets t [] (only-eq-ok _ t e))

  resolve_code-IsRow :
      (code : Text) (t : Ticket) → resolve_code code db.tickets ≡ ok (some t) → IsRow db.tickets t
  unfolding resolve_code
  resolve_code-IsRow code t e = ground (
    arith,
    lock_for_checkin-IsRow (strip code) t,
    none_if_missing-eq-ok (lock_for_checkin (strip code) db.tickets) t,
  )

  resolve_compared-IsRow :
      (genuine : Bool) (payload : Text) (t : Ticket)
      → resolve_compared h genuine payload db.tickets ≡ ok (resolved (some t))
      → IsRow db.tickets t
  unfolding resolve_compared resolve_ticket_from_payload
  resolve_compared-IsRow false payload t e = cc
  resolve_compared-IsRow true payload t e =
      let (o, r, same) = >>=-eq-ok _ _ (resolved (some t)) e in
      resolve_decoded-IsRow (payload_value payload) (h.decode_json (payload_value payload)) t
        (none_if_missing-eq-ok _ t (r ∙ cc same))

  look_up-IsRow :
      (event_id : ℕ) (source : Source) (t : Ticket)
      → look_up h event_id source db ≡ ok (resolved (some t))
      → IsRow db.tickets t
  unfolding look_up resolve_payload
  look_up-IsRow event_id (by_payload payload signature) t e =
      let (genuine, _, compared) = >>=-eq-ok _ _ (resolved (some t)) e in
      resolve_compared-IsRow genuine payload t compared
  look_up-IsRow event_id (by_code code) t e =
      let (o, r, same) = >>=-eq-ok _ _ (resolved (some t)) e in
      resolve_code-IsRow code t (r ∙ cc same)
  look_up-IsRow event_id (by_email email) t e =
      let (o, r, same) = >>=-eq-ok _ _ (resolved (some t)) e in
      resolve_ticket_from_email-IsRow event_id email t (none_if_missing-eq-ok _ t (r ∙ cc same))
  look_up-IsRow event_id by_nothing t e = cc

  -- The ticket of a scan is a row.
  pub resolve-IsRow :
      (event_id : ℕ) (scan : Scan) (t : Ticket)
      → resolve h event_id scan db ≡ ok (resolved (some t))
      → IsRow db.tickets t
  unfolding resolve
  resolve-IsRow event_id scan t e = look_up-IsRow event_id (source_of scan) t e
