-- ===== src/Registrations/Capacity.antt =====
-- The places of an event, and what each kind of write to the registrations does to them.
use uevent_backend.Base.{
  ℕ, zero, suc, ◌+◌, ◌≤◌, ◌≡◌, ◌≢◌, refl, ap, sym, subst, ◌∙◌, Bool, true, false, Option, none,
  some, List, arith, weight, eq-cases, inl, inr,
}
use uevent_backend.Orm.Table.{find, update, append}
use uevent_backend.Orm.Table.Laws.{count-update, count-append, key-find}
use uevent_backend.Events.Models.{Event}
use uevent_backend.Registrations.Models.{EventRegistration, takes_place}
use uevent_backend.Registrations.State.{
  event_key, registration_key, takes_place_at, active_registration_count,
}
use uevent_backend.Registrations.Register.{is_full}

-- A capacity of 0, or none, is no limit.
abbrev pub WithinCapacity : Option ℕ → ℕ → Type 0
WithinCapacity none n = Unit
WithinCapacity (some zero) n = Unit
WithinCapacity (some (suc c)) n = n ≤ suc c

-- No event has more registrations that take a place than its capacity.
abbrev pub Fits : List Event → List EventRegistration → Type 0
Fits events rows =
    (i : ℕ) (e : Event)
    → find event_key i events ≡ some e
    → WithinCapacity e.max_capacity (active_registration_count e.id rows)

WithinCapacity-mono : (m : Option ℕ) (n k : ℕ) → WithinCapacity m n → k ≤ n → WithinCapacity m k
WithinCapacity-mono none n k h l = tt
WithinCapacity-mono (some zero) n k h l = tt
WithinCapacity-mono (some (suc c)) n k h l = omega arith

WithinCapacity-next :
    (m : Option ℕ) (n k : ℕ) → is_full m n ≡ false → k ≤ n + 1 → WithinCapacity m k
WithinCapacity-next none n k h l = tt
WithinCapacity-next (some zero) n k h l = tt
WithinCapacity-next (some (suc c)) n k h l = ground arith

weight-le-one : (b : Bool) → weight b ≤ 1
weight-le-one true = omega arith
weight-le-one false = omega arith

weight_mono : (a b : Bool) → (a ≡ true → b ≡ true) → weight a ≤ weight b
weight_mono true true h = omega arith
weight_mono true false h = cc (h refl)
weight_mono false b h = omega arith

takes_place_at-elsewhere :
    (i : ℕ) (r : EventRegistration) → r.event_id ≢ i → takes_place_at i r ≡ false
takes_place_at-elsewhere i r h = ground arith

-- Where the places of one event with room for one more, and of no other, grow by at most one, all
-- events still fit.
pub Fits-next :
    (events : List Event) (rows rows' : List EventRegistration) (event : Event)
    (new : EventRegistration)
    → Fits events rows
    → find event_key event.id events ≡ some event
    → is_full event.max_capacity (active_registration_count event.id rows) ≡ false
    → new.event_id ≡ event.id
    → ((i : ℕ)
        → active_registration_count i rows'
          ≤ active_registration_count i rows + weight (takes_place_at i new))
    → Fits events rows'
Fits-next events rows rows' event new fits found room at grows i e here =
    elim (eq-cases e.id event.id) [
      | inl same ↦
          let ee : e ≡ event =
            cc (ap (λ (n : ℕ). find event_key n events) (key-find event_key i events e here)) in
          subst
            (λ (x : Event). WithinCapacity x.max_capacity (active_registration_count x.id rows'))
            (sym ee)
            (WithinCapacity-next event.max_capacity _ _ room
              (omega (arith, grows event.id, weight-le-one (takes_place_at event.id new))))
      | inr ne ↦ WithinCapacity-mono e.max_capacity _ _ (fits i e here) (
          omega (
            arith,
            grows e.id,
            ap weight (takes_place_at-elsewhere e.id new (λ p. ne (sym p ∙ at))),
          ))
    ]

-- Where no event's places grow, all events still fit.
pub Fits-fewer :
    (events : List Event) (rows rows' : List EventRegistration)
    → Fits events rows
    → ((i : ℕ) → active_registration_count i rows' ≤ active_registration_count i rows)
    → Fits events rows'
Fits-fewer events rows rows' fits fewer i e here =
    WithinCapacity-mono e.max_capacity _ _ (fits i e here) (fewer e.id)

pub active-append :
    (i : ℕ) (rows : List EventRegistration) (r : EventRegistration)
    → active_registration_count i (append rows r)
      ≤ active_registration_count i rows + weight (takes_place_at i r)
unfolding active_registration_count
active-append i rows r = omega (arith, count-append (takes_place_at i) rows r)

module _ (f : EventRegistration → EventRegistration) (j : ℕ) (r : EventRegistration)
    (rows : List EventRegistration) (found : find registration_key j rows ≡ some r) where
  pub active-update :
      (i : ℕ)
      → active_registration_count i (update registration_key j f rows)
        ≤ active_registration_count i rows + weight (takes_place_at i (f r))
  unfolding active_registration_count
  active-update i = omega (arith, count-update registration_key f (takes_place_at i) j rows r found)

  -- A write that leaves a registration at its event and gives it no place takes none.
  pub active-update-fewer :
      (f r).event_id ≡ r.event_id
      → (f r).deleted_at ≡ r.deleted_at
      → (takes_place (f r).status ≡ true → takes_place r.status ≡ true)
      → (i : ℕ)
      → active_registration_count i (update registration_key j f rows)
        ≤ active_registration_count i rows
  unfolding active_registration_count
  active-update-fewer same_event same_life no_place i = omega (
    arith,
    count-update registration_key f (takes_place_at i) j rows r found,
    weight_mono (takes_place_at i (f r)) (takes_place_at i r) (λ h. ground arith),
  )
