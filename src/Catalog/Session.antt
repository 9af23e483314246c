-- ===== src/Catalog/Session.antt =====
-- What the methods of a Volume that read the catalog share: the walks that they call, and the
-- fields that they change (the anomalies, the cache of records and the two hard-link stores that
-- have been looked for). A method runs as one step of an action on those fields.
use libhfs.Prelude.{ℕ, Bool, Option, String}
use libhfs.Errors.{Error, Result, ok, err, panic}
use libhfs.Bytes.{Bytes}
use libhfs.Extents.{FileSystemKind}
use libhfs.Text.{TextEncoding}
use libhfs.Anomalies.{Log, note_anomaly}
use libhfs.Cache.{Cache, cache_store}
use libhfs.Btree.Keys.{CatalogKey, AttributesKey}
use libhfs.Btree.Node.{BtreeHeaderRecord}
use libhfs.Btree.Walks.{Walk}
use libhfs.Catalog.{CatalogRecord}
use libhfs.Catalog.Decode.{decode_by_kind}
use libhfs.Prelude.{◌==◌}

-- A volume as its catalog methods see it; `header` is CatalogBTreeHeader, and `attributes_blocks`
-- the size of the first extent of the attributes file.
pub record Catalog : Type 1 where
  pub kind : FileSystemKind
  pub encoding : TextEncoding
  pub block_size : ℕ
  pub header : Result BtreeHeaderRecord
  pub children : ℕ → Walk CatalogKey
  pub records : Walk CatalogKey
  pub leaf_chain : Walk CatalogKey
  pub attributes_blocks : ℕ
  pub attributes_of : ℕ → Walk AttributesKey

pub data HardLinkStore : Type 0 where
  file_links dir_links : HardLinkStore

-- `priv_dir` is privDirs: `none` before the store has been looked for, then what was found.
pub record Session : Type 0 where
  pub log : Log
  pub cache : Cache ℕ CatalogRecord
  pub priv_dir : HardLinkStore → Option (Option ℕ)

abbrev pub Action : Type 0 → Type 0
Action A = Session → Session × Result A

abbrev pub proceed : {A B : Type 0} → (A → Action B) → Session × Result A → Session × Result B
proceed f (s, ok a) = f a s
proceed f (s, err e) = (s, err e)
proceed f (s, panic) = (s, panic)

infixl 5 ◌>>=◌
abbrev pub ◌>>=◌ : {A B : Type 0} → Action A → (A → Action B) → Action B
◌>>=◌ m f s = proceed f (m s)

abbrev pub pure : {A : Type 0} → A → Action A
pure a s = (s, ok a)

abbrev pub raise : {A : Type 0} → Error → Action A
raise e s = (s, err e)

abbrev pub either :
    {A B : Type 0} → (A → Action B) → (Error → Action B) → Session × Result A → Session × Result B
either f g (s, ok a) = f a s
either f g (s, err e) = g e s
either f g (s, panic) = (s, panic)

-- `if err == nil`: what to do with a value and with an error.
abbrev pub on_error : {A B : Type 0} → Action A → (A → Action B) → (Error → Action B) → Action B
on_error m f g s = either f g (m s)

abbrev pub noted : String → ℕ → String → Session → Session
noted op offset detail s = record s { log = note_anomaly op offset detail s.log }

abbrev pub same_cnid : ℕ → ℕ → Bool
same_cnid a b = a == b

-- cacheStore and cacheLookup on the volume's cache of records.
abbrev pub store : ℕ → CatalogRecord → Session → Session
store cnid r s = record s { cache = cache_store same_cnid cnid r s.cache }

abbrev pub decode : Catalog → CatalogKey → Bytes → Result CatalogRecord
decode c = decode_by_kind c.kind c.encoding c.block_size

-- The note of a keyed descent that failed, on the state of a callback.
abbrev pub fallback_note : {L : Type 0} → String → ℕ → String → Session × L → Session × L
fallback_note op offset detail (s, l) = (noted op offset detail s, l)

abbrev pub catalog_note : {L : Type 0} → ℕ → Session × L → Session × L
catalog_note parent =
    fallback_note "catalog_search" parent "keyed descent failed; fell back to a full catalog scan"

abbrev pub attributes_note : {L : Type 0} → ℕ → Session × L → Session × L
attributes_note cnid =
    fallback_note "attributes_search" cnid
      "keyed descent failed; fell back to a full attributes scan"
