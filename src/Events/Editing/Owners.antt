-- ===== src/Events/Editing/Owners.antt =====
-- What `create_event` leaves: a row, and its creator in the role of the owner.
use uevent_backend.Base.{
  ℕ, ◌+◌, ◌≤◌, ◌<◌, ◌≡◌, refl, sym, ap, subst, ◌∙◌, Bool, true, false, ◌&&◌, none, some, List, [],
  arith, length, ◌==◌, ==_refl,
}
use uevent_backend.Base.Texts.{Text, text_eq, is_nonempty}
use uevent_backend.Base.Decimal.{power_of_ten}
use uevent_backend.Common.Errors.{
  ok, ◌>>=◌, or_raise, does_not_exist, integrity_error, out_of_draws, >>=-eq-ok, ok-injective,
  or_raise-eq-ok,
}
use uevent_backend.Common.Host.{Host}
use uevent_backend.Orm.Table.{alive, exists, append}
use uevent_backend.Orm.Table.Laws.{exists-stronger, exists-or, first-append_new, exists-of_first}
use uevent_backend.Orm.Table.Reread.{some-injective}
use uevent_backend.Registrations.State.{Db, live_event}
use uevent_backend.Events.Models.{Event, EventOrganizer, OrganizerRole, is_owner_role}
use uevent_backend.Events.Access.{is_role_of}
use uevent_backend.Events.Input.{EventData, get_or}
use uevent_backend.Events.Editing.{
  check_columns, fits_columns, has_references, create_event, draft_event, new_event, insert_event,
  insert_organizer, new_organizer, ensure_owner, has_slug, build_unique_slug,
}
use uevent_backend.Events.Editing.Slugs.{slug_source, build_unique_slug-total}

-- A live row makes the user an owner of the event.
abbrev pub is_owning_row : ℕ → ℕ → EventOrganizer → Bool
is_owning_row event_id user_id o =
    alive o.deleted_at && (is_role_of event_id user_id o && is_owner_role o.organizer_role)

insert_event-new :
    (new : Event) (events : List Event)
    → exists (λ e. e.id == new.id) events ≡ false
    → has_slug events new.slug ≡ false
    → insert_event new events ≡ ok (append events new)
unfolding insert_event
insert_event-new new events fresh free =
    ground (arith, exists-or (λ e. e.id == new.id) (λ e. text_eq e.slug new.slug) events)

ensure_owner-new :
    (h : Host) (event_id user_id : ℕ) (organizers : List EventOrganizer)
    → exists (λ o. o.id == h.new_id 1) organizers ≡ false
    → exists (is_role_of event_id user_id) organizers ≡ false
    → ensure_owner h event_id user_id organizers
      ≡ ok (append organizers (new_organizer h 1 event_id user_id OrganizerRole.owner))
unfolding ensure_owner insert_organizer new_organizer
ensure_owner-new h event_id user_id organizers fresh free = ground (
  arith,
  exists-stronger (λ o. alive o.deleted_at && is_role_of event_id user_id o)
      (is_role_of event_id user_id) organizers (λ o. ground arith) free,
  exists-or (λ o. o.id == h.new_id 1) (is_role_of event_id user_id) organizers,
)

live_event-new :
    (new : Event) (events : List Event)
    → exists (λ e. e.id == new.id) events ≡ false
    → new.deleted_at ≡ none
    → live_event new.id (append events new) ≡ some new
unfolding live_event
live_event-new new events fresh living =
    let p : Event → Bool = λ e. alive e.deleted_at && e.id == new.id in
    first-append_new p events new
      (exists-stronger p (λ e. e.id == new.id) events (λ e. ground arith) fresh)
      (rw living (==_refl new.id))

owning_row-new :
    (h : Host) (event_id user_id : ℕ) (organizers : List EventOrganizer)
    → exists (is_role_of event_id user_id) organizers ≡ false
    → exists
        (is_owning_row event_id user_id)
        (append organizers (new_organizer h 1 event_id user_id OrganizerRole.owner))
      ≡ true
unfolding new_organizer
owning_row-new h event_id user_id organizers free =
    let new : EventOrganizer = new_organizer h 1 event_id user_id OrganizerRole.owner in
    exists-of_first (is_owning_row event_id user_id) (append organizers new) new (
      first-append_new (is_owning_row event_id user_id) organizers new
        (exists-stronger (is_owning_row event_id user_id) (is_role_of event_id user_id) organizers
          (λ o. ground arith) free)
        (ground arith))

-- A request with a category, a start and an end, whose values fit their columns and whose category
-- and room exist, creates an event, if the keys it draws are new, `slugify` leaves something of
-- what the slug is made from, and there are fewer than 10^279 - 3 events. The
-- event is found under its key, its slug is one that no event had and fits the column, its creator
-- is its creator, and a live row has that user for its owner.
pub create_event-total :
    (h : Host) (actor category start_at end_at : ℕ) (input : EventData) (db : Db)
    → input.category ≡ some category
    → input.start_at ≡ some start_at
    → input.end_at ≡ some end_at
    → fits_columns input ≡ true
    → has_references input db ≡ true
    → is_nonempty (h.slugify (slug_source (get_or [] input.title) (get_or [] input.slug))) ≡ true
    → 3 + length db.events < power_of_ten 279
    → exists (λ e. e.id == h.new_id 0) db.events ≡ false
    → exists (λ o. o.id == h.new_id 1) db.organizers ≡ false
    → exists (is_role_of (h.new_id 0) actor) db.organizers ≡ false
    → (event : Event) × (db' : Db) × (create_event h actor input db ≡ ok (event, db'))
      × (live_event event.id db'.events ≡ some event)
      × (has_slug db.events event.slug ≡ false)
      × (length event.slug ≤ 280)
      × (event.created_by_id ≡ actor)
      × (exists (is_owning_row event.id actor) db'.organizers ≡ true)
unfolding create_event check_columns new_event draft_event ◌>>=◌
create_event-total h actor category start_at end_at input db c s e held there usable few
      new_event_id new_role_id new_role =
    let (slug, built, free, fits) =
      build_unique_slug-total h db.events (get_or [] input.title) (get_or [] input.slug) usable
        few in
    let new : Event = draft_event h actor slug category start_at end_at input in
    let role : EventOrganizer = new_organizer h 1 new.id actor OrganizerRole.owner in
    (
      new,
      record db { events = append db.events new; organizers = append db.organizers role },
      rw
          (
            built,
            held,
            there,
            c,
            s,
            e,
            insert_event-new new db.events new_event_id free,
            ensure_owner-new h new.id actor db.organizers new_role_id new_role,
            live_event-new new db.events new_event_id refl,
          )
          refl,
      live_event-new new db.events new_event_id refl,
      free,
      fits,
      refl,
      owning_row-new h new.id actor db.organizers new_role,
    )

pub insert_event-eq-ok :
    (new : Event) (events rows : List Event)
    → insert_event new events ≡ ok rows
    → (rows ≡ append events new)
      × (exists (λ e. e.id == new.id) events ≡ false)
      × (has_slug events new.slug ≡ false)
unfolding insert_event
insert_event-eq-ok new events rows done =
    let split = exists-or (λ e. e.id == new.id) (λ e. text_eq e.slug new.slug) events in
    (ground arith, ground arith, ground arith)

pub new_event-eq-ok :
    (h : Host) (actor : ℕ) (slug : Text) (input : EventData) (new : Event)
    → new_event h actor slug input ≡ ok new
    → (start_at : ℕ) × (end_at : ℕ) × (category : ℕ) × (input.start_at ≡ some start_at)
      × (input.end_at ≡ some end_at)
      × (draft_event h actor slug category start_at end_at input ≡ new)
unfolding new_event
new_event-eq-ok h actor slug input new made =
    let (category, c, f₁) = >>=-eq-ok (or_raise input.category integrity_error) _ new made in
    let (start_at, s, f₂) = >>=-eq-ok (or_raise input.start_at integrity_error) _ new f₁ in
    let (end_at, t, f₃) = >>=-eq-ok (or_raise input.end_at integrity_error) _ new f₂ in
    (
      start_at,
      end_at,
      category,
      or_raise-eq-ok input.start_at integrity_error start_at s,
      or_raise-eq-ok input.end_at integrity_error end_at t,
      ok-injective (draft_event h actor slug category start_at end_at input) new f₃,
    )

deleted_at-draft_event :
    (h : Host) (actor : ℕ) (slug : Text) (category start_at end_at : ℕ) (input : EventData)
    → (draft_event h actor slug category start_at end_at input).deleted_at ≡ none
unfolding draft_event
deleted_at-draft_event h actor slug category start_at end_at input = refl

-- The event that `create_event` returns is the row that it has inserted.
pub create_event-inserts :
    (h : Host) (actor : ℕ) (input : EventData) (db : Db) (event : Event) (db' : Db)
    → create_event h actor input db ≡ ok (event, db')
    → (slug : Text) × (new_event h actor slug input ≡ ok event)
      × (insert_event event db.events ≡ ok db'.events)
unfolding create_event live_event
create_event-inserts h actor input db event db' done =
    let returned : Event × Db = (event, db') in
    let (slug, built, e₁) =
      >>=-eq-ok
        (or_raise (build_unique_slug h db.events (get_or [] input.title) (get_or [] input.slug))
          out_of_draws)
        _ returned done in
    let (_, _, e₀) = >>=-eq-ok (check_columns input db) _ returned e₁ in
    let (new, made, e₂) = >>=-eq-ok (new_event h actor slug input) _ returned e₀ in
    let (start_at, end_at, category, s, t, drawn) = new_event-eq-ok h actor slug input new made in
    let (events, inserted, e₃) = >>=-eq-ok (insert_event new db.events) _ returned e₂ in
    let (organizers, owned, e₄) =
      >>=-eq-ok (ensure_owner h new.id actor db.organizers) _ returned e₃ in
    let (saved, read, e₅) =
      >>=-eq-ok (or_raise (live_event new.id events) does_not_exist)
        (λ s. ok (s, record db { events = events; organizers = organizers })) returned e₄ in
    let (rows, fresh, free) = insert_event-eq-ok new db.events events inserted in
    let living : new.deleted_at ≡ none =
      subst (λ (e : Event). e.deleted_at ≡ none) drawn
        (deleted_at-draft_event h actor slug category start_at end_at input) in
    let there : some new ≡ some saved =
      sym (live_event-new new db.events fresh living)
      ∙ ap (live_event new.id) (sym rows)
      ∙ or_raise-eq-ok (live_event new.id events) does_not_exist saved read in
    let mine : Event × Db = (saved, record db { events = events; organizers = organizers }) in
    let out : mine ≡ returned = ok-injective mine returned e₅ in
    subst
      (λ (d : Event × Db).
        (slug : Text) × (new_event h actor slug input ≡ ok d.0)
        × (insert_event d.0 db.events ≡ ok d.1.events))
      out
      (
        slug,
        subst (λ (e : Event). new_event h actor slug input ≡ ok e) (some-injective new saved there)
            made,
        subst (λ (e : Event). insert_event e db.events ≡ ok events) (some-injective new saved there)
            inserted,
      )
