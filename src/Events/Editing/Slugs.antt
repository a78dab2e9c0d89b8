-- ===== src/Events/Editing/Slugs.antt =====
-- The slug of a new event.
use uevent_backend.Base.{◌+◌, ◌≤◌, ◌<◌, ◌≡◌, true, false, some, List, arith, length, if◌then◌else◌}
use uevent_backend.Base.Texts.{Text, is_nonempty}
use uevent_backend.Base.Decimal.{power_of_ten}
use uevent_backend.Common.Host.{Host}
use uevent_backend.Common.Slugs.Free.{unique_slug-total}
use uevent_backend.Events.Models.{Event}
use uevent_backend.Events.Editing.{build_unique_slug, has_slug}

-- What the slug is made from: the one that was asked for, or the title.
abbrev pub slug_source : Text → Text → Text
slug_source title requested_slug = if is_nonempty requested_slug then requested_slug else title

-- If what the slug is made from leaves something, and there are fewer than 10^279 - 3 events, then
-- a slug comes out that no event has, a deleted one included, and that fits the column of 280
-- characters.
pub build_unique_slug-total :
    (h : Host) (events : List Event) (title requested_slug : Text)
    → is_nonempty (h.slugify (slug_source title requested_slug)) ≡ true
    → 3 + length events < power_of_ten 279
    → (slug : Text) × (build_unique_slug h events title requested_slug ≡ some slug)
      × (has_slug events slug ≡ false)
      × (length slug ≤ 280)
unfolding build_unique_slug
build_unique_slug-total h events title requested_slug nonempty few =
    let (slug, e, free, fits) =
      unique_slug-total (λ e. e.slug) 280 (h.slugify (slug_source title requested_slug)) 278 events
        (2 + length events) (omega arith) (omega arith) (omega arith) in
    (slug, rw nonempty e, free, fits)
