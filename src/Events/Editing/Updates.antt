-- ===== src/Events/Editing/Updates.antt =====
-- What `update_event` and `delete_event` change, and what the deletion of an event closes.
use uevent_backend.Base.{
  ℕ, ◌≡◌, ◌≢◌, ◌↔◌, ap, ==_iff, refl, sym, subst, Bool, true, ◌&&◌, Option, none, some, List, [],
  ◌∷◌, ◌++◌, arith, ◌==◌, ==_refl, inl, inr, Option-cases, Bool-cases,
}
use uevent_backend.Base.Texts.{Text, text_eq_iff}
use uevent_backend.Common.Errors.{
  ok, err, ◌>>=◌, or_raise, or_raise-eq-ok, >>=-eq-ok, ok-injective, does_not_exist, not_found,
}
use uevent_backend.Common.Host.{Host}
use uevent_backend.Orm.Table.{alive, first, find, update}
use uevent_backend.Orm.Table.Laws.{
  IsKeyed, IsKeyed-update, first-eq-some, find-first, find-update_self, find-update_ne,
}
use uevent_backend.Orm.Table.Reread.{first-refused, first-update, first-of_find, some-injective}
use uevent_backend.Notifications.Models.{Task}
use uevent_backend.Locations.Models.{Room}
use uevent_backend.Registrations.State.{Db, event_key, live_event}
use uevent_backend.Registrations.Register.{create_event_registration}
use uevent_backend.Events.Models.{Event}
use uevent_backend.Events.Access.{get_event}
use uevent_backend.Events.Input.{EventData, get_or}
use uevent_backend.Events.Editing.{
  check_columns, update_event, updated_event, update_tasks, changes_between, same_times, same_place,
  same_key, same_text, delete_event, deleted,
}
use uevent_backend.Events.Publishing.{get_public_event, get_shareable_public_event, is_public}

pub get_event-live :
    (actor event_id : ℕ) (db : Db) (event : Event)
    → get_event actor event_id db ≡ ok event
    → live_event event_id db.events ≡ some event
unfolding get_event ◌>>=◌
get_event-live actor event_id db event h = elim (Option-cases (live_event event_id db.events)) [
  | inl n ↦ ground arith
  | inr (e, s) ↦ ground arith
]

pub id-live_event :
    (event_id : ℕ) (events : List Event) (event : Event)
    → live_event event_id events ≡ some event
    → event.id ≡ event_id
unfolding live_event
id-live_event event_id events event h =
    ground (arith, first-eq-some (λ e. alive e.deleted_at && e.id == event_id) events event)

-- The tables after a deletion.
abbrev without : Host → Event → Db → Db
without h event db = record db { events = update event_key event.id (deleted h.now) db.events }

delete_event-eq-ok :
    (h : Host) (actor event_id : ℕ) (db db' : Db)
    → delete_event h actor event_id db ≡ ok db'
    → (event : Event) × (live_event event_id db.events ≡ some event) × (db' ≡ without h event db)
unfolding delete_event
delete_event-eq-ok h actor event_id db db' done =
    let (event, found, e) = >>=-eq-ok (get_event actor event_id db) _ db' done in
    (
      event,
      get_event-live actor event_id db event found,
      sym (ok-injective (without h event db) db' e),
    )

-- No query for the key finds a deleted event among the live ones.
first-deleted :
    (p : Event → Bool) (now event_id : ℕ) (events : List Event) (event : Event)
    → IsKeyed event_key events
    → ((c : Event) → p c ≡ true → (alive c.deleted_at && c.id == event_id) ≡ true)
    → live_event event_id events ≡ some event
    → first p (update event_key event.id (deleted now) events) ≡ none
unfolding live_event
first-deleted p now event_id events event keyed live_at found =
    let same = id-live_event event_id events event found in
    first-refused event_key p event.id (update event_key event.id (deleted now) events)
      (deleted now event) (IsKeyed-update event_key (deleted now) (λ c. refl) event.id events keyed)
      (λ c q. ground (arith, live_at c q))
      (find-update_self event_key (deleted now) (λ c. refl) event.id events event
        (find-first event_key (λ e. alive e.deleted_at && e.id == event_id) events event keyed
          found))
      (elim (Bool-cases (p (deleted now event))) [
        | inl q ↦ absurd (ground (arith, live_at (deleted now event) q))
        | inr n ↦ n
      ])

-- With unique keys, once an organizer has deleted an event its page and its share link are not
-- found, and no one can register for it.
pub delete_event-closes :
    (h later : Host) (actor user_id event_id : ℕ) (answers : Option (List Text)) (db db' : Db)
    → IsKeyed event_key db.events
    → delete_event h actor event_id db ≡ ok db'
    → (get_public_event event_id db' ≡ err not_found)
      × (get_shareable_public_event event_id db' ≡ err not_found)
      × (get_event actor event_id db' ≡ err not_found)
      × (create_event_registration later user_id event_id answers db' ≡ err not_found)
unfolding get_public_event get_shareable_public_event get_event create_event_registration ◌>>=◌
    live_event
delete_event-closes h later actor user_id event_id answers db db' keyed done =
    let (event, found, e) = delete_event-eq-ok h actor event_id db db' done in
    let gone : live_event event_id (without h event db).events ≡ none =
      first-deleted (λ c. alive c.deleted_at && c.id == event_id) h.now event_id db.events event
        keyed (λ c q. q) found in
    let hidden =
      first-deleted (λ c. alive c.deleted_at && (c.id == event_id && is_public c)) h.now event_id
        db.events event keyed (λ c q. ground arith) found in
    subst
      (λ (d : Db).
        (get_public_event event_id d ≡ err not_found)
        × (get_shareable_public_event event_id d ≡ err not_found)
        × (get_event actor event_id d ≡ err not_found)
        × (create_event_registration later user_id event_id answers d ≡ err not_found))
      (sym e) (rw hidden refl, rw gone refl, rw gone refl, rw gone refl)

-- The tables after an update.
abbrev pub rewritten : ℕ → EventData → Event → Db → Db
rewritten actor input event db = record db {
  events = update event_key event.id (updated_event input) db.events;
  mailbox = record db.mailbox {
    on_commit =
        db.mailbox.on_commit ++ update_tasks actor db.rooms event (updated_event input event);
  };
}

abbrev pub outcome : ℕ → EventData → Event → Db → Event × Db
outcome actor input event db = (updated_event input event, rewritten actor input event db)

update_event-eq-ok :
    (actor event_id : ℕ) (input : EventData) (db : Db) (saved : Event) (db' : Db)
    → IsKeyed event_key db.events
    → update_event actor event_id input db ≡ ok (saved, db')
    → (event : Event) × (get_event actor event_id db ≡ ok event)
      × (event.id ≡ event_id)
      × (outcome actor input event db ≡ (saved, db'))
unfolding update_event live_event updated_event
update_event-eq-ok actor event_id input db saved db' keyed done =
    let (event, got, e₁) = >>=-eq-ok (get_event actor event_id db) _ (saved, db') done in
    let (_, _, e₀) = >>=-eq-ok (check_columns input db) _ (saved, db') e₁ in
    let found = get_event-live actor event_id db event got in
    let same = id-live_event event_id db.events event found in
    let rows : List Event = update event_key event.id (updated_event input) db.events in
    let (again, read, e₂) =
      >>=-eq-ok (or_raise (live_event event.id rows) does_not_exist)
        (λ e. ok (e, rewritten actor input event db)) (saved, db') e₀ in
    let fresh : again ≡ updated_event input event =
      first-update event_key (updated_event input) (λ c. refl)
        (λ c. alive c.deleted_at && c.id == event.id) event.id db.events event again keyed
        (λ c. ground arith) (rw same found)
        (or_raise-eq-ok (live_event event.id rows) does_not_exist again read) in
    let written : Event × Db = (again, rewritten actor input event db) in
    let returned : Event × Db = (saved, db') in
    (
      event,
      got,
      same,
      subst (λ (e : Event). ◌≡◌ {A = Event × Db} (e, rewritten actor input event db) returned) fresh
          (ok-injective written returned e₂),
    )

same_key_iff : (a b : Option ℕ) → (same_key a b ≡ true) ↔ (a ≡ b)
same_key_iff none none = (λ h. refl, λ h. refl)
same_key_iff none (some b) = ((λ h. cc), (λ h. cc))
same_key_iff (some a) none = ((λ h. cc), (λ h. cc))
same_key_iff (some a) (some b) = ((λ h. ground arith), (λ h. ground arith))

same_text_iff : (a b : Option Text) → (same_text a b ≡ true) ↔ (a ≡ b)
same_text_iff none none = (λ h. refl, λ h. refl)
same_text_iff none (some b) = ((λ h. cc), (λ h. cc))
same_text_iff (some a) none = ((λ h. cc), (λ h. cc))
same_text_iff (some a) (some b) =
    ((λ h. ap some ((text_eq_iff a b).0 h)), (λ h. (text_eq_iff a b).1 (some-injective a b h)))

-- The attendees need not be told of the change: it takes place where and when it did.
abbrev pub IsSameVisit : Event → Event → Type 0
IsSameVisit old new =
    (old.start_at ≡ new.start_at)
    × (old.end_at ≡ new.end_at)
    × (old.room_id ≡ new.room_id)
    × (old.location_snapshot ≡ new.location_snapshot)

update_tasks_iff :
    (actor : ℕ) (rooms : List Room) (old new : Event)
    → (IsSameVisit old new → update_tasks actor rooms old new ≡ [])
      × (¬ IsSameVisit old new
          → update_tasks actor rooms old new
            ≡ Task.notify_event_updated new.id actor (changes_between rooms old new) ∷ [])
unfolding update_tasks
update_tasks_iff actor rooms old new =
    let k = same_key_iff old.room_id new.room_id in
    let t = same_text_iff old.location_snapshot new.location_snapshot in
    (
      (λ h.
          rw
            (
              (==_iff old.start_at new.start_at).1 h.0,
              (==_iff old.end_at new.end_at).1 h.1,
              k.1 h.2,
              t.1 h.3,
            )
            refl),
      (λ n. elim (Bool-cases (same_times old new && same_place old new)) [
        | inl e ↦ absurd (n (ground arith, ground arith, k.0 (ground arith), t.0 (ground arith)))
        | inr e ↦ rw e refl
      ]),
    )

-- With unique keys, an update writes to its event and to no other row, keeps its slug and its
-- creator, writes the times, the room and the place that the request holds and keeps those that it
-- does not, and leaves one task to tell the attendees if one of these four has changed, and else none.
pub update_event-changes :
    (actor event_id : ℕ) (input : EventData) (db : Db) (saved : Event) (db' : Db)
    → IsKeyed event_key db.events
    → update_event actor event_id input db ≡ ok (saved, db')
    → (event : Event) × (get_event actor event_id db ≡ ok event)
      × (saved.slug ≡ event.slug)
      × (saved.created_by_id ≡ event.created_by_id)
      × (saved.start_at ≡ get_or event.start_at input.start_at)
      × (saved.end_at ≡ get_or event.end_at input.end_at)
      × (saved.room_id ≡ get_or event.room_id input.room)
      × (saved.location_snapshot ≡ get_or event.location_snapshot input.location_snapshot)
      × ((j : ℕ) → event_id ≢ j → find event_key j db'.events ≡ find event_key j db.events)
      × (IsSameVisit event saved → db'.mailbox.on_commit ≡ db.mailbox.on_commit ++ [])
      × (¬ IsSameVisit event saved
          → db'.mailbox.on_commit
            ≡ db.mailbox.on_commit
              ++ Task.notify_event_updated event_id actor (changes_between db.rooms event saved)
                ∷ [])
unfolding updated_event
update_event-changes actor event_id input db saved db' keyed done =
    let (event, got, same, e) = update_event-eq-ok actor event_id input db saved db' keyed done in
    let (none_left, one_left) = update_tasks_iff actor db.rooms event (updated_event input event) in
    let (a₁, a₂, a₃, a₄, a₅, a₆, others, none_told, told) =
      subst
        (λ (d : Event × Db).
          (d.0.slug ≡ event.slug)
          × (d.0.created_by_id ≡ event.created_by_id)
          × (d.0.start_at ≡ get_or event.start_at input.start_at)
          × (d.0.end_at ≡ get_or event.end_at input.end_at)
          × (d.0.room_id ≡ get_or event.room_id input.room)
          × (d.0.location_snapshot ≡ get_or event.location_snapshot input.location_snapshot)
          × ((j : ℕ) → event_id ≢ j → find event_key j d.1.events ≡ find event_key j db.events)
          × (IsSameVisit event d.0 → d.1.mailbox.on_commit ≡ db.mailbox.on_commit ++ [])
          × (¬ IsSameVisit event d.0
              → d.1.mailbox.on_commit
                ≡ db.mailbox.on_commit
                  ++ Task.notify_event_updated event_id actor (changes_between db.rooms event d.0)
                    ∷ []))
        e
        (
          refl,
          refl,
          refl,
          refl,
          refl,
          refl,
          (λ j ne.
              find-update_ne event_key (updated_event input) (λ c. refl) event.id j db.events
                (rw same ne)),
          (λ v. rw (none_left v) refl),
          (λ n. rw (one_left n) (rw same refl)),
        ) in
    (event, got, a₁, a₂, a₃, a₄, a₅, a₆, others, none_told, told)

-- An organizer who reaches the event also updates it, with columns that the database takes.
pub update_event-total :
    (actor event_id : ℕ) (input : EventData) (db : Db) (event : Event)
    → IsKeyed event_key db.events
    → get_event actor event_id db ≡ ok event
    → check_columns input db ≡ ok tt
    → update_event actor event_id input db ≡ ok (outcome actor input event db)
unfolding update_event live_event updated_event ◌>>=◌
update_event-total actor event_id input db event keyed got held =
    let found = get_event-live actor event_id db event got in
    let live : Event → Bool = λ c. alive c.deleted_at && c.id == event.id in
    let there =
      find-first event_key (λ c. alive c.deleted_at && c.id == event_id) db.events event keyed
        found in
    let rows : List Event = update event_key event.id (updated_event input) db.events in
    let read : first live rows ≡ some (updated_event input event) =
      first-of_find event_key live event.id rows (updated_event input event)
        (IsKeyed-update event_key (updated_event input) (λ c. refl) event.id db.events keyed)
        (λ c. ground arith)
        (find-update_self event_key (updated_event input) (λ c. refl) event.id db.events event
          there)
        (ground (
          arith,
          first-eq-some (λ c. alive c.deleted_at && c.id == event_id) db.events event found,
          ==_refl event.id,
        )) in
    rw (got, held, read) refl
