-- ===== src/Events/Publishing/Highlights.antt =====
-- The events that a user is shown first.
use uevent_backend.Base.{
  ℕ, zero, suc, ◌-◌, ◌≤◌, ◌≡◌, Bool, true, not, ◌&&◌, List, [], ◌∷◌, ◌++◌, arith, ◌==◌, ltb, leb,
  length, length-append, inl, inr, Option-cases, Bool-cases,
}
use uevent_backend.Orm.Table.{alive, find, select}
use uevent_backend.Registrations.Models.{EventRegistration}
use uevent_backend.Registrations.State.{Db, event_key}
use uevent_backend.Events.Models.{Event}
use uevent_backend.Events.Publishing.{
  take, insert_desc, order_desc, is_highlight, events_of, is_among, highlight_events_for_user,
}

module _ {ℓ} {A : Type ℓ} where
  -- Every row passes the test.
  abbrev pub IsAll : (A → Bool) → List A → Type 0
  IsAll p [] = Unit
  IsAll p (a ∷ rows) = (p a ≡ true) × IsAll p rows

  length-take : (n : ℕ) (rows : List A) → length (take n rows) ≤ n
  unfolding take
  length-take zero rows = omega arith
  length-take (suc n) [] = omega arith
  length-take (suc n) (a ∷ rows) = omega (arith, length-take n rows)

  take-IsAll : (p : A → Bool) (n : ℕ) (rows : List A) → IsAll p rows → IsAll p (take n rows)
  unfolding take
  take-IsAll p zero rows h = tt
  take-IsAll p (suc n) [] h = tt
  take-IsAll p (suc n) (a ∷ rows) h = (h.0, take-IsAll p n rows h.1)

  ++-IsAll :
      (p : A → Bool) (rows more : List A) → IsAll p rows → IsAll p more → IsAll p (rows ++ more)
  ++-IsAll p [] more h k = k
  ++-IsAll p (a ∷ rows) more h k = (h.0, ++-IsAll p rows more h.1 k)

  insert_desc-IsAll :
      (p : A → Bool) (key : A → ℕ) (a : A) (rows : List A)
      → p a ≡ true
      → IsAll p rows
      → IsAll p (insert_desc key a rows)
  unfolding insert_desc
  insert_desc-IsAll p key a [] h k = (h, tt)
  insert_desc-IsAll p key a (b ∷ rows) h k = elim (Bool-cases (ltb (key b) (key a))) [
    | inl e ↦ rw e (h, k)
    | inr e ↦ rw e (k.0, insert_desc-IsAll p key a rows h k.1)
  ]

  order_desc-IsAll :
      (p : A → Bool) (key : A → ℕ) (rows : List A) → IsAll p rows → IsAll p (order_desc key rows)
  unfolding order_desc
  order_desc-IsAll p key [] h = tt
  order_desc-IsAll p key (a ∷ rows) h =
      insert_desc-IsAll p key a (order_desc key rows) h.0 (order_desc-IsAll p key rows h.1)

  -- What a filter keeps passes any weaker test.
  select-IsAll :
      (p q : A → Bool) (rows : List A)
      → ((a : A) → p a ≡ true → q a ≡ true)
      → IsAll q (select p rows)
  unfolding select
  select-IsAll p q [] weaker = tt
  select-IsAll p q (a ∷ rows) weaker = elim (Bool-cases (p a)) [
    | inl e ↦ rw e (weaker a e, select-IsAll p q rows weaker)
    | inr e ↦ rw e (select-IsAll p q rows weaker)
  ]

length-events_of :
    (events : List Event) (rows : List EventRegistration)
    → length (events_of events rows) ≤ length rows
unfolding events_of
length-events_of events [] = omega arith
length-events_of events (r ∷ rows) = elim (Option-cases (find event_key r.event_id events)) [
  | inl n ↦ rw (n, length) (omega (arith, length-events_of events rows))
  | inr (e, s) ↦ rw (s, length) (omega (arith, length-events_of events rows))
]

-- The events of registrations that count are not deleted.
events_of-IsAll :
    (actor : ℕ) (events : List Event) (rows : List EventRegistration)
    → IsAll (is_highlight actor events) rows
    → IsAll (λ e. alive e.deleted_at) (events_of events rows)
unfolding events_of is_highlight
events_of-IsAll actor events [] h = tt
events_of-IsAll actor events (r ∷ rows) h = elim (Option-cases (find event_key r.event_id events)) [
  | inl n ↦ rw (n, IsAll) (events_of-IsAll actor events rows h.1)
  | inr (e, s) ↦ rw (s, IsAll) (ground arith, events_of-IsAll actor events rows h.1)
]

-- At most as many events as were asked for are shown, none of them deleted.
pub highlight_events_for_user-bounds :
    (actor limit : ℕ) (db : Db)
    → (length (highlight_events_for_user actor limit db) ≤ limit)
      × IsAll (λ e. alive e.deleted_at) (highlight_events_for_user actor limit db)
unfolding highlight_events_for_user
highlight_events_for_user-bounds actor limit db =
    let rows : List EventRegistration = take limit (
      order_desc (λ r. r.registered_at) (select (is_highlight actor db.events) db.registrations)) in
    let events : List Event = events_of db.events rows in
    let is_created : Event → Bool =
      λ e. (alive e.deleted_at && e.created_by_id == actor) && not (is_among e.id events) in
    let more : List Event =
      take (limit - length events) (order_desc (λ e. e.created_at) (select is_created db.events)) in
    let few = length-take limit (
      order_desc (λ r. r.registered_at) (select (is_highlight actor db.events) db.registrations)) in
    let fewer = length-events_of db.events rows in
    let rest =
      length-take (limit - length events)
        (order_desc (λ e. e.created_at) (select is_created db.events)) in
    let registered = events_of-IsAll actor db.events rows (
      take-IsAll (is_highlight actor db.events) limit _ (
        order_desc-IsAll (is_highlight actor db.events) (λ r. r.registered_at) _
          (select-IsAll (is_highlight actor db.events) (is_highlight actor db.events)
            db.registrations (λ r h. h)))) in
    let created =
      take-IsAll (λ e. alive e.deleted_at) (limit - length events) _
        (order_desc-IsAll (λ e. alive e.deleted_at) (λ e. e.created_at) _
          (select-IsAll is_created (λ e. alive e.deleted_at) db.events (λ e h. ground arith))) in
    elim (Bool-cases (leb limit 0)) [
      | inl e ↦ rw e (omega arith, tt)
      | inr e ↦ elim (Bool-cases (leb limit (length events))) [
        | inl full ↦ rw (e, full) (omega arith, registered)
        | inr some_left ↦
            rw (e, some_left)
              (
                ground (arith, length-append events more),
                ++-IsAll (λ e. alive e.deleted_at) events more registered created,
              )
      ]
    ]
