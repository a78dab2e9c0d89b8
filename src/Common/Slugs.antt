-- ===== src/Common/Slugs.antt =====
-- Unique slugs: the loop of `_build_unique_slug` (apps/events/services.py and
-- apps/system_admin/services/category_services.py), for the column's width.
pub mod Free
use uevent_backend.Base.{
  ℕ, zero, suc, ◌+◌, ◌-◌, Bool, Option, none, some, List, [], ◌∷◌, ◌++◌, if◌then◌else◌, leb, length,
}
use uevent_backend.Base.Texts.{Text, text_eq}
use uevent_backend.Base.Decimal.{decimal}

unfoldable pub take : ℕ → Text → Text
take zero s = []
take (suc n) [] = []
take (suc n) (c ∷ s) = c ∷ take n s

-- `s[:limit - n]`: a negative end counts from the end of the text.
unfoldable pub slice_to : ℕ → ℕ → Text → Text
unfolding take
slice_to limit n s = if leb n limit then take (limit - n) s else take (length s - (n - limit)) s

-- `f"-{suffix}"`
unfoldable pub suffix_text : ℕ → Text
unfolding decimal
suffix_text suffix = 45 ∷ decimal suffix

-- The slug with a suffix.
unfoldable pub with_suffix : ℕ → Text → ℕ → Text
unfolding slice_to suffix_text
with_suffix limit base_slug suffix =
    slice_to limit (length (suffix_text suffix)) base_slug ++ suffix_text suffix

-- The loop, on fuel: `taken` is the query for a row with the slug.
unfoldable pub next_free : (Text → Bool) → ℕ → Text → ℕ → Text → ℕ → Option Text
unfolding with_suffix
next_free taken limit base_slug zero slug suffix = none
next_free taken limit base_slug (suc fuel) slug suffix =
    let rest =
      next_free taken limit base_slug fuel (with_suffix limit base_slug (suffix + 1))
        (suffix + 1) in
    if taken slug then rest else some slug

-- From `slug = base_slug[:limit]` and `suffix = 1`.
unfoldable pub unique_slug : (Text → Bool) → ℕ → ℕ → Text → Option Text
unfolding next_free slice_to
unique_slug taken limit fuel base_slug =
    next_free taken limit base_slug fuel (slice_to limit 0 base_slug) 1
