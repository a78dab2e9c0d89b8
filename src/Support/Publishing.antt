-- ===== src/Support/Publishing.antt =====
-- Publishing and archiving help-center articles and legal documents (apps/support/services.py and
-- apps/system_admin/services/support_services.py).
pub mod Dates
use uevent_backend.Base.{ℕ, ◌&&◌, Option, none, some, List, ◌==◌}
use uevent_backend.Common.Errors.{Result, ok, ◌>>=◌, or_raise, not_found}
use uevent_backend.Common.Host.{Host}
use uevent_backend.Orm.Table.{alive, first, update}
use uevent_backend.Support.Models.{Publication, PublicationStatus}

abbrev pub publication_key : Publication → ℕ
publication_key p = p.id

unfoldable pub lock_publication : ℕ → List Publication → Result Publication
lock_publication id rows = or_raise (first (λ p. alive p.deleted_at && p.id == id) rows) not_found

abbrev pub or_now : Host → Option ℕ → Option ℕ
or_now h none = some h.now
or_now h (some t) = some t

-- `HelpCenterService.publish_article` and `LegalDocumentService.publish`
abbrev pub publish : Host → Publication → Publication
publish h p = record p {
  status = PublicationStatus.published;
  published_at = or_now h p.published_at;
}

-- `archive_article` and `LegalDocumentService.archive`
abbrev pub archive : Publication → Publication
archive p = record p { status = PublicationStatus.archived }

-- `publish_help_center_article` and `publish_legal_document`
unfoldable pub publish_publication :
    Host → ℕ → List Publication → Result (Publication × List Publication)
unfolding lock_publication
publish_publication h id rows = do
  p ← lock_publication id rows
  ok (publish h p, update publication_key p.id (publish h) rows)

-- `archive_help_center_article` and `archive_legal_document`
unfoldable pub archive_publication : ℕ → List Publication → Result (Publication × List Publication)
unfolding lock_publication
archive_publication id rows = do
  p ← lock_publication id rows
  ok (archive p, update publication_key p.id archive rows)
