-- ===== src/Tests/Catalog.antt =====
-- Catalog records, their lookups, names, anomalies and extended attributes.
use libhfs.Prelude.{
  suc, ℕ, ◌≡◌, ◌≢◌, ◌↔◌, ◌⊎◌, ◌<◌, ◌+◌, ◌%◌, ◌^◌, ◌&&◌, ◌==◌, sym, true, false, refl, inl, inr,
  none, some, Option, [], ◌∷◌, arith, length, take, replicate, Bool-cases, if◌then◌else◌,
}
use libhfs.Errors.{Error, is, panic, sentinel, Result, ok, err, Holds, not_found}
use libhfs.Bytes.{Bytes, field16, field32}
use libhfs.Extents.{hfs_plus}
use libhfs.File.{File}
use libhfs.Text.{go_string, utf16_decode, encode_rune, mac_roman, name_string, decoded_name}
use libhfs.Text.Names.{pairs, name_string-eq-decoded_name}
use libhfs.Text.Folding.{utf16_encode, hfs_unicode_equal}
use libhfs.Text.Folding.Keys.{folded, hfs_unicode_equal-folded}
use libhfs.Anomalies.{Log, empty_log, is_noted, note_anomaly, max_tracked_anomalies}
use libhfs.Anomalies.Distinct.{IsLog, note_anomaly-IsLog}
use libhfs.Btree.Keys.{units_from, CatalogKey, AttributesKey}
use libhfs.Btree.Node.{BtreeHeaderRecord}
use libhfs.Btree.Walks.{Walk, Opened}
use libhfs.Btree.Walks.Delivery.{Trace, item, fell_back, play, Delivers}
use libhfs.Btree.Leaves.{LeafCallback}
use libhfs.Catalog.{CatalogRecord, folder_thread, new_record}
use libhfs.Catalog.Session.{Catalog, Session}
use libhfs.Catalog.Decode.{decode_catalog_record, decode_thread, decode_by_kind}
use libhfs.Catalog.Fields.{SaysOf}
use libhfs.Catalog.Decoded.{decode_by_kind-Holds}
use libhfs.Catalog.Links.{same_text}
use libhfs.Catalog.Lookup.{
  is_thread, is_placeholder_record, find_thread_record, lookup_cnid_linear, search_child,
}
use libhfs.Catalog.Lookup.Choice.{records_in, first, answer, lookups-answer}
use libhfs.Cache.{lookup}
use libhfs.Paths.{PathMemo, PathMemoEntry, known, put_if, new_path_memo, path_up}
use libhfs.Paths.Memo.{IsSound, put_if-IsSound}
use libhfs.Paths.Climb.{thread_of, Gives, path_up-HasPath}
use libhfs.Xattrs.{value, content_of}
use libhfs.Xattrs.Values.{read_xattr}
use libhfs.Xattrs.Recursion.{read_xattr-none}

-- The thread record of folder 20, which is the folder "a" in folder 2.
abbrev thread_key : CatalogKey
thread_key = record { key_length = 6; parent_cnid = 20; name_utf16 = []; name_bytes = [] }

abbrev thread_bytes : Bytes
thread_bytes = 0 ∷ 3 ∷ 0 ∷ 0 ∷ 0 ∷ 0 ∷ 0 ∷ 2 ∷ 0 ∷ 1 ∷ 0 ∷ 97 ∷ []

abbrev folder_key : CatalogKey
folder_key = record { key_length = 8; parent_cnid = 2; name_utf16 = 97 ∷ []; name_bytes = [] }

abbrev folder_bytes : Bytes
folder_bytes = 0 ∷ 1 ∷ 0 ∷ 0 ∷ 0 ∷ 0 ∷ 0 ∷ 0 ∷ 0 ∷ 0 ∷ 0 ∷ 20 ∷ replicate 76 0

decode_by_kind-Holds_example :
    Holds
      (SaysOf hfs_plus mac_roman 4096 thread_key thread_bytes)
      (decode_by_kind hfs_plus mac_roman 4096 thread_key thread_bytes)
decode_by_kind-Holds_example = decode_by_kind-Holds hfs_plus mac_roman 4096 thread_key thread_bytes

-- A walk that plays a trace.
abbrev pub playing : {K : Type 0} → Trace K → Walk K
playing t S note cb s = play note cb t s

abbrev pub playing-Delivers : {K : Type 0} (t : Trace K) → Delivers (playing t)
playing-Delivers t = record { trace = t; plays = λ S note cb s. refl }

abbrev threads : Trace CatalogKey
threads = (fell_back ∷ item thread_key thread_bytes ∷ [], ok tt)

abbrev everything : Trace CatalogKey
everything = (item folder_key folder_bytes ∷ item thread_key thread_bytes ∷ [], ok tt)

abbrev small : Catalog
small = record {
  kind = hfs_plus;
  encoding = mac_roman;
  block_size = 4096;
  header = err (sentinel not_found);
  children = λ parent. playing threads;
  records = playing everything;
  leaf_chain = playing everything;
  attributes_blocks = 0;
  attributes_of = λ cnid. playing ([], ok tt);
}

abbrev pub fresh : Session
fresh = record {
  log = empty_log;
  cache = record { bound = 16; held = λ k. none; order = [] };
  priv_dir = λ store. none;
}

lookups-answer_example :
    ((find_thread_record small 20 fresh).1
      ≡ answer small (λ r. is_thread r && r.thread_cnid == 20) (λ r. false) threads)
    × ((lookup_cnid_linear small 20 fresh).1
        ≡ answer small (λ r. r.cnid == 20) (is_placeholder_record hfs_plus) everything)
    × ((search_child small 20 (97 ∷ []) same_text fresh).1
        ≡ answer small
            (λ r. r.parent_cnid == 20 && same_text r.name (97 ∷ []))
            (is_placeholder_record hfs_plus)
            threads)
lookups-answer_example =
    lookups-answer small 20 20 (97 ∷ []) same_text (playing-Delivers threads)
      (playing-Delivers everything) fresh

-- A tree of one leaf with one record: the empty name below folder 2, and one byte.
abbrev leaf : Bytes
leaf =
    0 ∷ 0 ∷ 0 ∷ 0 ∷ 0 ∷ 0 ∷ 0 ∷ 0 ∷ 255 ∷ 1 ∷ 0 ∷ 1 ∷ 0 ∷ 0 ∷ 0 ∷ 6 ∷ 0 ∷ 0 ∷ 0 ∷ 2 ∷ 0 ∷ 0 ∷ 7 ∷ 0
    ∷ 23 ∷ 0 ∷ 14 ∷ []

abbrev header : BtreeHeaderRecord
header = record {
  depth = 1;
  root_node = 1;
  leaf_records = 1;
  first_leaf_node = 1;
  last_leaf_node = 1;
  node_size = 27;
  max_key_len = 516;
  total_nodes = 2;
  free_nodes = 0;
  clump_size = 0;
  tree_type = 0;
  comp_type = 0;
  attributes = 0;
}

abbrev tree : Opened
tree = (header, λ at size. ok leaf)

-- A callback that counts its calls.
abbrev count : LeafCallback ℕ CatalogKey
count n key payload = (suc n, ok tt)

-- U+1F600 as UTF-16 units.
name_string-eq-decoded_name_example :
    (name_string (55357 ∷ 56832 ∷ []) ≡ decoded_name (55357 ∷ 56832 ∷ []))
    ↔ (pairs (55357 ∷ 56832 ∷ []) ≡ 0)
name_string-eq-decoded_name_example = name_string-eq-decoded_name (55357 ∷ 56832 ∷ [])

hfs_unicode_equal-folded_example :
    (hfs_unicode_equal (65 ∷ []) (97 ∷ []) ≡ true)
    ↔ (folded (utf16_encode (65 ∷ [])) ≡ folded (utf16_encode (97 ∷ [])))
hfs_unicode_equal-folded_example = hfs_unicode_equal-folded (65 ∷ []) (97 ∷ [])

abbrev noted_once : Log
noted_once = note_anomaly "xattr_inline" 20 "cut" empty_log

noted_once-IsLog : IsLog noted_once
noted_once-IsLog =
    (note_anomaly-IsLog "xattr_inline" "cut" 20 empty_log
      (record { bounded = omega arith; distinct = tt })).0

note_anomaly-IsLog_example :
    IsLog (note_anomaly "catalog_search" 2 "fell back" noted_once)
    × (take (length noted_once.kept) (note_anomaly "catalog_search" 2 "fell back" noted_once).kept
        ≡ noted_once.kept)
    × ((length noted_once.kept ≡ max_tracked_anomalies)
        ⊎ (is_noted "catalog_search" "fell back"
              (note_anomaly "catalog_search" 2 "fell back" noted_once).kept
            ≡ true))
    × ((note_anomaly "catalog_search" 2 "fell back" noted_once).total
        ≡ (noted_once.total + 1) % 2 ^ 64)
note_anomaly-IsLog_example =
    note_anomaly-IsLog "catalog_search" "fell back" 2 noted_once noted_once-IsLog

-- An inline attribute of one byte under a key of start block 1.
abbrev late_key : AttributesKey
late_key = record { file_id = 20; start_block = 1; name = 97 ∷ [] }

abbrev late_value : Bytes
late_value = 0 ∷ 0 ∷ 0 ∷ 16 ∷ 0 ∷ 0 ∷ 0 ∷ 0 ∷ 0 ∷ 0 ∷ 0 ∷ 0 ∷ 0 ∷ 0 ∷ 0 ∷ 1 ∷ 7 ∷ []

abbrev late : Trace AttributesKey
late = (item late_key late_value ∷ [], ok tt)

abbrev nothing_read : File → Result Bytes
nothing_read f = ok []

late_value-content : content_of late_value ≡ ok (value 1 false)
unfolding content_of field32
late_value-content = refl

read_xattr-none_example :
    read_xattr (λ cnid. playing late) true 4096 nothing_read 3 20 (97 ∷ []) fresh ≡ none
read_xattr-none_example =
    read_xattr-none (λ cnid. playing late) 4096 nothing_read 20 late_key late_value 1 false
      (playing-Delivers late) refl (λ e. omega (arith, e)) late_value-content 3 fresh

abbrev thread_20 : CatalogRecord
thread_20 = record (new_record folder_thread 2 (97 ∷ [])) { thread_cnid = 20 }

abbrev walks : (n : ℕ) → Delivers (small.children n)
walks n = playing-Delivers threads

threads_of_small :
    (n : ℕ) → thread_of small walks n ≡ (if 20 == n then ok thread_20 else err (sentinel not_found))
unfolding decode_by_kind decode_catalog_record decode_thread records_in first decoded_name field16
    field32 units_from go_string utf16_decode encode_rune
threads_of_small n = elim (Bool-cases (20 == n)) [ inl q ↦ rw (q) refl | inr q ↦ rw (q) refl ]

reads_of_small : (n : ℕ) → thread_of small walks n ≢ panic
reads_of_small n = elim (Bool-cases (20 == n)) [
  | inl q ↦ rw (threads_of_small n, q) (ground arith)
  | inr q ↦ rw (threads_of_small n, q) (ground arith)
]

words_of_small :
    (n : ℕ) (r : CatalogRecord) → thread_of small walks n ≡ ok r → r.parent_cnid < 2 ^ 32
words_of_small n r h = elim (Bool-cases (20 == n)) [
  | inl q ↦
      let found : Result.ok thread_20 ≡ ok r = rw (threads_of_small n, q) at h in
      let e : thread_20 ≡ r = cc in rw (sym e) (omega arith)
  | inr q ↦
      let found : err (sentinel not_found) ≡ ok r = rw (threads_of_small n, q) at h in
      absurd (apart found)
]
  where
    apart : err (sentinel not_found) ≢ ok r
    apart e = cc

attached_of_small : (e : Error) → thread_of small walks 20 ≡ err e → is e not_found ≡ false
attached_of_small e h = absurd (apart (rw (threads_of_small 20) at h))
  where
    apart : Result.ok thread_20 ≢ err e
    apart q = cc

abbrev rooted : Option PathMemo
rooted = put_if 2 (known []) (some (new_path_memo 8192))

rooted-IsSound : IsSound (thread_of small walks) rooted
unfolding new_path_memo lookup
rooted-IsSound =
    put_if-IsSound (thread_of small walks) 2 (known []) (some (new_path_memo 8192))
      (λ n e h. absurd (none-ne-some e h)) (0, (refl, refl))
  where
    none-ne-some : (e : PathMemoEntry) → none ≢ some e
    none-ne-some e h = cc

path_up-HasPath_example : Gives small walks 20 (path_up small 20 rooted fresh) (47 ∷ 97 ∷ [])
path_up-HasPath_example =
    path_up-HasPath small walks 20 rooted fresh (47 ∷ 97 ∷ []) reads_of_small words_of_small
      attached_of_small (λ e. omega (arith, e)) (omega arith) rooted-IsSound
