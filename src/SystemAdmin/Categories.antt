-- ===== src/SystemAdmin/Categories.antt =====
-- AdminCategoryService (apps/system_admin/services/category_services.py), over the tables of events
-- and categories.
pub mod Homes
use uevent_backend.Base.{
  ℕ, ◌+◌, Bool, true, false, not, ◌&&◌, ◌||◌, Option, none, some, List, [], ◌∷◌, ◌==◌, ltb, is_some,
  if◌then◌else◌, length,
}
use uevent_backend.Base.Texts.{Text, codes, text_eq, is_nonempty}
use uevent_backend.Common.Errors.{
  Result, ok, err, ◌>>=◌, ◌>>◌, raise_if, or_raise, not_found, validation_error, integrity_error,
  out_of_draws, invalid_slug,
}
use uevent_backend.Common.Host.{Host}
use uevent_backend.Common.Slugs.{unique_slug}
use uevent_backend.Orm.Table.{alive, first, count, exists, append, update}
use uevent_backend.Registrations.State.{Db}
use uevent_backend.Events.Models.{Event, EventCategory}
use uevent_backend.Events.Input.{get_or}
use uevent_backend.SystemAdmin.Audit.{AuditEntry, entry}

abbrev pub category_key : EventCategory → ℕ
category_key c = c.id

abbrev pub has_slug : List EventCategory → Text → Bool
has_slug categories slug = exists (λ c. text_eq c.slug slug) categories

unfoldable pub get_category : ℕ → List EventCategory → Result EventCategory
get_category category_id categories =
    or_raise (first (λ c. alive c.deleted_at && c.id == category_id) categories) not_found

unfoldable pub build_unique_slug : Host → List EventCategory → Text → Text → Result Text
unfolding unique_slug
build_unique_slug h categories name requested_slug =
    let base_slug : Text =
      h.slugify (if is_nonempty requested_slug then requested_slug else name) in
    if not (is_nonempty base_slug)
    then err (validation_error invalid_slug)
    else or_raise (unique_slug (has_slug categories) 140 (2 + length categories) base_slug)
        out_of_draws

-- What is created or updated, as far as the request holds it.
pub record CategoryData : Type 0 where
  pub name : Option Text
  pub slug : Option Text
  pub description : Option Text
  pub icon : Option (Option Text)
  pub color : Option (Option Text)
  pub is_active : Option Bool

-- Another row, dead or not, has the unique name or slug.
abbrev pub clashes_with : EventCategory → EventCategory → Bool
clashes_with new c = text_eq c.name new.name || text_eq c.slug new.slug

-- `EventCategory.objects.create(**payload)`, with the name that the serializer requires
unfoldable pub insert_category : EventCategory → List EventCategory → Result (List EventCategory)
insert_category new categories =
    if exists (λ c. (c.id == new.id) || clashes_with new c) categories
    then err integrity_error
    else ok (append categories new)

unfoldable pub create_category :
    Host → ℕ → Text → CategoryData → Db → Result (EventCategory × AuditEntry × Db)
unfolding build_unique_slug insert_category get_category
create_category h actor name input db = do
  slug ← build_unique_slug h db.categories name (get_or [] input.slug)
  let new : EventCategory = record {
    id = h.new_id 0;
    deleted_at = none;
    name = name;
    slug = slug;
    description = get_or [] input.description;
    icon = get_or none input.icon;
    color = get_or none input.color;
    is_active = get_or true input.is_active;
  }
  categories ← insert_category new db.categories
  saved ← get_category new.id categories
  ok (saved, entry "create_category" actor new.id, record db { categories = categories })

unfoldable pub updated_category : CategoryData → EventCategory → EventCategory
updated_category input c = record c {
  name = get_or c.name input.name;
  slug = get_or c.slug input.slug;
  description = get_or c.description input.description;
  icon = get_or c.icon input.icon;
  color = get_or c.color input.color;
  is_active = get_or c.is_active input.is_active;
}

-- `bool(data)`
unfoldable pub has_fields : CategoryData → Bool
has_fields input =
    is_some input.name
    || is_some input.slug
    || is_some input.description
    || is_some input.icon
    || is_some input.color
    || is_some input.is_active

-- `category.save(update_fields=...)` under the unique name and slug
unfoldable pub save_category :
    CategoryData → EventCategory → List EventCategory → Result (List EventCategory)
unfolding updated_category
save_category input category categories =
    if exists (λ c. not (c.id == category.id) && clashes_with (updated_category input category) c)
      categories
    then err integrity_error
    else ok (update category_key category.id (updated_category input) categories)

unfoldable pub update_category :
    Host → ℕ → ℕ → CategoryData → Db → Result (EventCategory × List AuditEntry × Db)
unfolding get_category has_fields save_category
update_category h actor category_id input db = do
  category ← get_category category_id db.categories
  categories ←
      if has_fields input then save_category input category db.categories else ok db.categories
  saved ← get_category category_id categories
  ok (
    saved,
    (if has_fields input then entry "update_category" actor category.id ∷ [] else []),
    record db { categories = categories },
  )

abbrev pub deactivated : EventCategory → EventCategory
deactivated c = record c { is_active = false }

abbrev pub dead : ℕ → EventCategory → EventCategory
dead now c = record c { deleted_at = some now }

-- `Event.objects.filter(category=category).count()`
unfoldable pub event_count : ℕ → List Event → ℕ
event_count category_id = count (λ e. alive e.deleted_at && e.category_id == category_id)

-- Deactivated if an event that is not deleted is of the category, and else deleted.
unfoldable pub retire : Host → ℕ → EventCategory → Db → AuditEntry × Db
unfolding event_count
retire h actor category db =
    if ltb 0 (event_count category.id db.events)
    then (
      entry "deactivate_category" actor category.id,
      record db { categories = update category_key category.id deactivated db.categories },
    )
    else (
      entry "delete_category" actor category.id,
      record db { categories = update category_key category.id (dead h.now) db.categories },
    )

unfoldable pub delete_category : Host → ℕ → ℕ → Db → Result (AuditEntry × Db)
unfolding get_category retire
delete_category h actor category_id db = do
  category ← get_category category_id db.categories
  ok (retire h actor category db)
