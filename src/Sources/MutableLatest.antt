-- ===== src/Sources/MutableLatest.antt =====
-- applyOffChainMutableLatest, of libs/sources/core/src/offchain/apply-mutable-latest.ts, on the rows
-- of one source: those of the table `archive_event`, with the statements of
-- libs/db/src/archive-event-repository.ts, and those that the writer has put into ClickHouse, the last
-- one first. A call may be cut short before the write or between the write and the statement behind it.
-- The ordinals, the payload and the derivation marks that an update clears are left out.
pub mod Tries
pub mod Deliveries
use kvorum.Base.{
  ltb, if◌then◌else◌, get_or_default, find, ℕ, ◌+◌, String, Bool, false, ◌&&◌, Option, none, some,
  List, ◌∷◌, map, str_eq,
}

pub record MutableLatestItem : Type 0 where
  pub external_id : String
  pub content_hash : String

-- `content_hash` and `version` may be null.
pub record ArchiveEvent : Type 0 where
  pub external_id : String
  pub content_hash : Option String
  pub version : Option ℕ

pub record WrittenRow : Type 0 where
  pub external_id : String
  pub content_hash : String
  pub version : ℕ

pub record Archive : Type 0 where
  pub events : List ArchiveEvent
  pub written : List WrittenRow

pub data MutableLatestOutcome : Type 0 where
  skip_unchanged inserted re_archived thrown : MutableLatestOutcome

-- Where a call is cut short.
pub data Cut : Type 0 where
  before_write behind_write : Cut

abbrev pub find_by_external_id : String → List ArchiveEvent → Option ArchiveEvent
find_by_external_id id events = find (λ e. str_eq e.external_id id) events

-- `version < :version`, which null never is.
abbrev pub version_below : Option ℕ → ℕ → Bool
version_below none n = false
version_below (some v) n = ltb v n

abbrev pub updated : MutableLatestItem → ℕ → ArchiveEvent
updated item version = record {
  external_id = item.external_id;
  content_hash = some item.content_hash;
  version = some version;
}

abbrev pub re_archived_row : MutableLatestItem → ℕ → ArchiveEvent → ArchiveEvent
re_archived_row item version e =
    if str_eq e.external_id item.external_id && version_below e.version version
    then updated item version
    else e

-- `reArchiveOffchain`.
abbrev pub re_archive_offchain : MutableLatestItem → ℕ → List ArchiveEvent → List ArchiveEvent
re_archive_offchain item version events = map (re_archived_row item version) events

abbrev pub has_hash : Option String → String → Bool
has_hash none hash = false
has_hash (some h) hash = str_eq h hash

abbrev pub written_row : MutableLatestItem → ℕ → WrittenRow
written_row item version = record {
  external_id = item.external_id;
  content_hash = item.content_hash;
  version = version;
}

-- The write, then the statement on the table.
unfoldable pub archive_version :
    MutableLatestItem
    → ℕ
    → List ArchiveEvent
    → MutableLatestOutcome
    → Option Cut
    → Archive
    → Archive × MutableLatestOutcome
archive_version item version events done none s =
    (record { events = events; written = written_row item version ∷ s.written }, done)
archive_version item version events done (some before_write) s = (s, thrown)
archive_version item version events done (some behind_write) s =
    (record { events = s.events; written = written_row item version ∷ s.written }, thrown)

unfoldable pub apply_to :
    MutableLatestItem → Option ArchiveEvent → Option Cut → Archive → Archive × MutableLatestOutcome
apply_to item none fault s = archive_version item 1 (updated item 1 ∷ s.events) inserted fault s
apply_to item (some existing) fault s =
    let version = get_or_default existing.version 0 + 1 in
    if has_hash existing.content_hash item.content_hash
    then (s, skip_unchanged)
    else archive_version item version (re_archive_offchain item version s.events) re_archived fault
        s

unfoldable pub apply_off_chain_mutable_latest :
    MutableLatestItem → Option Cut → Archive → Archive × MutableLatestOutcome
apply_off_chain_mutable_latest item fault s =
    apply_to item (find_by_external_id item.external_id s.events) fault s
