-- ===== src/SystemAdmin/Locations/Closing.antt =====
-- A campus that has been deleted has nothing open left.
use uevent_backend.Base.{
  ℕ, ◌≡◌, refl, subst, Bool, true, false, ◌&&◌, none, some, List, [], ◌∷◌, arith, ◌==◌, inl, inr,
  Bool-cases,
}
use uevent_backend.Common.Errors.{ok, or_raise-eq-ok, >>=-eq-ok, ok-injective, not_found}
use uevent_backend.Common.Host.{Host}
use uevent_backend.Orm.Table.{alive, first, find, count, update, update_where}
use uevent_backend.Orm.Table.Laws.{
  IsKeyed, IsKeyed-update, first-eq-some, find-first, find-update_self,
}
use uevent_backend.Orm.Table.Reread.{first-refused}
use uevent_backend.Locations.Models.{Campus, Building, Room, campus_key}
use uevent_backend.SystemAdmin.Audit.{AuditEntry}
use uevent_backend.SystemAdmin.Locations.{
  Places, get_campus, is_building_of, is_at_campus, is_room_at, campus_in_use, closed_campus,
  closed_building, closed_room, close_campus, delete_campus,
}

module _ {ℓ} {A : Type ℓ} where
  -- After writing to the rows that pass, none passes a test that the write makes fail.
  count-update_where :
      (p q : A → Bool) (f : A → A) (rows : List A)
      → ((a : A) → p a ≡ true → q (f a) ≡ false)
      → ((a : A) → p a ≡ false → q a ≡ false)
      → count q (update_where p f rows) ≡ 0
  unfolding count update_where
  count-update_where p q f [] written kept = refl
  count-update_where p q f (a ∷ rows) written kept = elim (Bool-cases (p a)) [
    | inl e ↦ ground (arith, written a e, count-update_where p q f rows written kept)
    | inr e ↦ ground (arith, kept a e, count-update_where p q f rows written kept)
  ]

  -- A count is at most that of a weaker test.
  count-weaker :
      (p q : A → Bool) (rows : List A)
      → ((a : A) → q a ≡ true → p a ≡ true)
      → count p rows ≡ 0
      → count q rows ≡ 0
  unfolding count
  count-weaker p q [] weaker h = refl
  count-weaker p q (a ∷ rows) weaker h = elim (Bool-cases (q a)) [
    | inl e ↦ ground (arith, weaker a e)
    | inr e ↦ ground (arith, count-weaker p q rows weaker)
  ]

-- Which building is at which campus does not change when some are closed.
is_at_campus-closed :
    (p : Building → Bool) (buildings : List Building) (campus_id i : ℕ)
    → is_at_campus (update_where p closed_building buildings) campus_id i
      ≡ is_at_campus buildings campus_id i
unfolding is_at_campus find update_where
is_at_campus-closed p [] campus_id i = refl
is_at_campus-closed p (b ∷ buildings) campus_id i = elim (Bool-cases (p b)) [
  | inl e ↦ rw e (ground (arith, is_at_campus-closed p buildings campus_id i))
  | inr e ↦ rw e (ground (arith, is_at_campus-closed p buildings campus_id i))
]

-- A live building of the campus that is active, a live room of it that is, and the campus itself.
abbrev pub is_open_building : ℕ → Building → Bool
is_open_building campus_id b = is_building_of campus_id b && b.is_active

abbrev pub is_open_room : List Building → ℕ → Room → Bool
is_open_room buildings campus_id r = is_room_at buildings campus_id r && r.is_active

abbrev pub is_open_campus : ℕ → Campus → Bool
is_open_campus campus_id c = (alive c.deleted_at && c.id == campus_id) && c.is_active

-- Nothing of the campus is open.
abbrev pub IsClosed : ℕ → Places → Type 0
IsClosed campus_id places =
    (first (is_open_campus campus_id) places.campuses ≡ none)
    × (count (is_open_building campus_id) places.buildings ≡ 0)
    × (count (is_open_room places.buildings campus_id) places.rooms ≡ 0)

closed_rooms :
    (buildings : List Building) (campus_id : ℕ) (rooms : List Room)
    → count
        (is_open_room (update_where (is_building_of campus_id) closed_building buildings) campus_id)
        (update_where (is_room_at buildings campus_id) closed_room rooms)
      ≡ 0
unfolding is_room_at
closed_rooms buildings campus_id rooms =
    let p : Building → Bool = is_building_of campus_id in
    count-update_where (is_room_at buildings campus_id)
      (is_open_room (update_where p closed_building buildings) campus_id) closed_room rooms
      (λ r h. ground arith)
      (λ r h. ground (arith, is_at_campus-closed p buildings campus_id r.building_id))

-- A campus whose row is closed or dead is not open.
campus_closed :
    (f : Campus → Campus) (campus : Campus) (campuses : List Campus)
    → ((c : Campus) → (f c).id ≡ c.id)
    → IsKeyed campus_key campuses
    → find campus_key campus.id campuses ≡ some campus
    → is_open_campus campus.id (f campus) ≡ false
    → first (is_open_campus campus.id) (update campus_key campus.id f campuses) ≡ none
campus_closed f campus campuses keeps keyed there shut =
    first-refused campus_key (is_open_campus campus.id) campus.id
      (update campus_key campus.id f campuses) (f campus)
      (IsKeyed-update campus_key f keeps campus.id campuses keyed) (λ c. ground arith)
      (find-update_self campus_key f keeps campus.id campuses campus there) shut

-- A campus that is not in use has no live building and no live room.
unused_counts :
    (campus_id : ℕ) (places : Places)
    → campus_in_use campus_id places ≡ false
    → (count (is_building_of campus_id) places.buildings ≡ 0)
      × (count (is_room_at places.buildings campus_id) places.rooms ≡ 0)
unfolding campus_in_use
unused_counts campus_id places unused = (ground arith, ground arith)

close_campus-IsClosed :
    (h : Host) (actor : ℕ) (campus : Campus) (places : Places)
    → IsKeyed campus_key places.campuses
    → find campus_key campus.id places.campuses ≡ some campus
    → IsClosed campus.id (close_campus h actor campus places).1
unfolding close_campus is_building_of
close_campus-IsClosed h actor campus places keyed there =
    elim (Bool-cases (campus_in_use campus.id places)) [
      | inl used ↦ rw used (
        campus_closed closed_campus campus places.campuses (λ c. refl) keyed there (ground arith),
        count-update_where (is_building_of campus.id) (is_open_building campus.id) closed_building
            places.buildings (λ b h. ground arith) (λ b h. ground arith),
        closed_rooms places.buildings campus.id places.rooms,
      )
      | inr unused ↦
          let (buildings, rooms) = unused_counts campus.id places unused in
          rw unused (
            campus_closed (λ c. record c { deleted_at = some h.now }) campus places.campuses
                (λ c. refl) keyed there refl,
            count-weaker (is_building_of campus.id) (is_open_building campus.id) places.buildings
                (λ b h. ground arith) buildings,
            count-weaker (is_room_at places.buildings campus.id)
                (is_open_room places.buildings campus.id) places.rooms (λ r h. ground arith) rooms,
          )
    ]

-- With unique keys, once an administrator has deleted a campus it is not both live and active, and
-- no live building and no live room of it is active, whether the campus was in use or not.
pub delete_campus-IsClosed :
    (h : Host) (actor campus_id : ℕ) (places : Places) (e : AuditEntry) (places' : Places)
    → IsKeyed campus_key places.campuses
    → delete_campus h actor campus_id places ≡ ok (e, places')
    → IsClosed campus_id places'
unfolding delete_campus get_campus
delete_campus-IsClosed h actor campus_id places e places' keyed done =
    let out : AuditEntry × Places = (e, places') in
    let (campus, got, e₁) =
      >>=-eq-ok (get_campus campus_id places.campuses) (λ c. ok (close_campus h actor c places)) out
        done in
    let live : Campus → Bool = λ c. alive c.deleted_at && c.id == campus_id in
    let found = or_raise-eq-ok (first live places.campuses) not_found campus got in
    let passes = first-eq-some live places.campuses campus found in
    let same : campus.id ≡ campus_id = ground arith in
    subst (λ (d : AuditEntry × Places). IsClosed campus_id d.1)
      (ok-injective (close_campus h actor campus places) out e₁)
      (subst (λ (i : ℕ). IsClosed i (close_campus h actor campus places).1) same
        (close_campus-IsClosed h actor campus places keyed
          (find-first campus_key live places.campuses campus keyed found)))
