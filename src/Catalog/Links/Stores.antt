-- ===== src/Catalog/Links/Stores.antt =====
-- The inodes of hard links, in the two private directories that catalog.go looks for once.
use libhfs.Prelude.{
  ℕ, ◌≡◌, ◌≢◌, refl, sym, ◌∙◌, ap, Bool, true, inl, inr, Bool-cases, Option-cases, Option, none,
  some, List, [], ◌∷◌, ◌++◌, arith, if◌then◌else◌,
}
use libhfs.Errors.{is, Result, ok, err, panic, Result-cases}
use libhfs.Bytes.{Bytes}
use mathlib.Core.Bool.{decide}
use libhfs.Text.{name_string}
use libhfs.Btree.Keys.{CatalogKey}
use libhfs.Btree.Walks.Delivery.{Event, item, fell_back, play_events, Delivers}
use libhfs.Catalog.{CatalogRecord, CatalogRecordType, folder, file, LinkKind}
use libhfs.Catalog.Session.{
  Catalog, Session, HardLinkStore, file_links, dir_links, decode, catalog_note, noted, proceed,
  pure,
}
use libhfs.Catalog.Lookup.{is_kind}
use libhfs.Catalog.Lookup.Choice.{decode-ne-panic}
use libhfs.Catalog.Links.{
  same_text, decimal, inode_name_prefix, dir_inode_name_prefix, is_store_name, take_named,
  conclude_named, find_named, find_private_dir, same_store, private_dir_cnid, is_dir_link,
}

module _ (c : Catalog) where
  abbrev if_kind :
      CatalogRecordType → Result CatalogRecord → Option CatalogRecord → Option CatalogRecord
  if_kind want (ok r) later = if is_kind r.kind want then some r else later
  if_kind want (err e) later = later
  if_kind want panic later = later

  -- The first record of a kind whose key's name passes a test.
  unfoldable pub first_named :
      (Bytes → Bool) → CatalogRecordType → List (Event CatalogKey) → Option CatalogRecord
  first_named named want [] = none
  first_named named want (fell_back ∷ es) = first_named named want es
  first_named named want (item k b ∷ es) =
      let later = first_named named want es in
      if named (name_string k.name_utf16) then if_kind want (decode c k b) later else later

  -- A search's answer and the directories that its session remembers.
  abbrev Finds : {A : Type 0} → Session → A → Session × Result A → Type 0
  Finds s a (s', r) = (r ≡ ok a) × (s'.priv_dir ≡ s.priv_dir)

  play-take_named :
      (parent : ℕ) (named : Bytes → Bool) (want : CatalogRecordType) (es : List (Event CatalogKey))
      (final : Result (Unit {0})) (s : Session)
      → final ≢ panic
      → Finds s (first_named named want es) (
          conclude_named c
            (play_events (catalog_note parent) (take_named c named want) es final (s, none)))
  unfolding play_events take_named first_named is decide
  play-take_named parent named want [] (ok _) s h = (refl, refl)
  play-take_named parent named want [] (err e) s h = (ground arith, refl)
  play-take_named parent named want [] panic s h = absurd (h refl)
  play-take_named parent named want (fell_back ∷ es) final s h =
      play-take_named parent named want es final
        (noted "catalog_search" parent "keyed descent failed; fell back to a full catalog scan" s) h
  play-take_named parent named want (item k b ∷ es) final s h =
      elim (Bool-cases (named (name_string k.name_utf16))) [
        | inr n ↦ rw (take_named, n) (play-take_named parent named want es final s h)
        | inl n ↦ elim (Result-cases (decode c k b)) [
          | inr (inr q) ↦ absurd (decode-ne-panic c k b q)
          | inr (inl (e, q)) ↦
              rw (take_named, n, q) (play-take_named parent named want es final s h)
          | inl (r, q) ↦ elim (Bool-cases (is_kind r.kind want)) [
            | inl w ↦ rw (take_named, n, q, w) (refl, refl)
            | inr w ↦ rw (take_named, n, q, w) (play-take_named parent named want es final s h)
          ]
        ]
      ]

  same_store-eq : (x y : HardLinkStore) → same_store c x y ≡ true → x ≡ y
  same_store-eq file_links file_links h = refl
  same_store-eq dir_links dir_links h = refl
  same_store-eq file_links dir_links h = cc
  same_store-eq dir_links file_links h = cc

  module _ (d : (n : ℕ) → Delivers (c.children n)) where
    abbrev pub cnid_of : Option CatalogRecord → Option ℕ
    cnid_of none = none
    cnid_of (some r) = some r.cnid

    -- The private directory of a store, as the walk of the root folder comes by it.
    abbrev pub store_of : HardLinkStore → Option ℕ
    store_of which = cnid_of (first_named (is_store_name which) folder (d 2).trace.0)

    abbrev pub in_store : ℕ → LinkKind → Option ℕ → Option CatalogRecord
    in_store num kind none = none
    in_store num kind (some p) =
        if is_dir_link c kind
        then first_named (λ name. same_text name (dir_inode_name_prefix ++ decimal num)) folder
            (d p).trace.0
        else first_named (λ name. same_text name (inode_name_prefix ++ decimal num)) file
            (d p).trace.0

    -- The inode of a number: a folder "dir_<n>" or a file "iNode<n>" in the store of its kind.
    abbrev pub inode_of : ℕ → LinkKind → Option CatalogRecord
    inode_of num kind =
        in_store num kind (store_of (if is_dir_link c kind then dir_links else file_links))

    -- The directories that a session remembers are those that the root folder holds.
    abbrev pub IsFaithful : Session → Type 0
    IsFaithful s =
        (which : HardLinkStore) (a : Option ℕ) → s.priv_dir which ≡ some a → a ≡ store_of which

    abbrev pub Answers : {A : Type 0} → A → Session × Result A → Type 0
    Answers a (s, r) = (r ≡ ok a) × IsFaithful s

    module _ (calm : (n : ℕ) → (d n).trace.1 ≢ panic) where
      find_named-first_named :
          (parent : ℕ) (named : Bytes → Bool) (want : CatalogRecordType) (s : Session)
          → Finds s (first_named named want (d parent).trace.0) (find_named c parent named want s)
      unfolding find_named
      find_named-first_named parent named want s =
          rw
            ((d parent).plays (Session × Option CatalogRecord) (catalog_note parent)
              (take_named c named want) (s, none))
            (play-take_named parent named want (d parent).trace.0 (d parent).trace.1 s
              (calm parent))

      Finds-Answers :
          {A : Type 0} (s : Session) (a : A) (x : Session × Result A)
          → IsFaithful s
          → Finds s a x
          → Answers a x
      Finds-Answers s a (s', r) f (e, m) =
          (e, λ which b h. f which b (sym (ap (λ p. p which) m) ∙ h))

      pub bind-Answers :
          {A B : Type 0} (a : A) (b : B) (g : A → Session → Session × Result B)
          (x : Session × Result A)
          → Answers a x
          → ((s : Session) → IsFaithful s → Answers b (g a s))
          → Answers b (proceed g x)
      bind-Answers a b g (s, r) (e, f) k = rw (e) (k s f)

      find_private_dir-store_of :
          (which : HardLinkStore) (s : Session)
          → IsFaithful s
          → Answers (store_of which) (find_private_dir c which s)
      unfolding find_private_dir
      find_private_dir-store_of which s f =
          let root = first_named (is_store_name which) folder (d 2).trace.0 in
          bind-Answers root (store_of which)
            (λ found. pure (elim found [ none ↦ none | some r ↦ some r.cnid ]))
            (find_named c 2 (is_store_name which) folder s)
            (Finds-Answers s root (find_named c 2 (is_store_name which) folder s) f
              (find_named-first_named 2 (is_store_name which) folder s))
            (λ s' f'. (ap (λ o. ok o) (chosen root), f'))
        where
          chosen :
              (o : Option CatalogRecord)
              → (elim o [ none ↦ none | some r ↦ some r.cnid ]) ≡ cnid_of o
          chosen none = refl
          chosen (some r) = refl

      remembers :
          (which : HardLinkStore) (a : Option ℕ) (s : Session)
          → a ≡ store_of which
          → IsFaithful s
          → IsFaithful
              (record s { priv_dir = λ x. if same_store c x which then some a else s.priv_dir x })
      remembers which a s e f x b h = elim (Bool-cases (same_store c x which)) [
        | inr q ↦ f x b (rw (q) at h)
        | inl q ↦
            let same : x ≡ which = same_store-eq x which q in
            let told : some a ≡ some b = rw (q) at h in rw (same) (sym (some-injective told) ∙ e)
      ]
        where
          some-injective : {a b : Option ℕ} → Option.some a ≡ some b → a ≡ b
          some-injective q = cc

      pub private_dir_cnid-store_of :
          (which : HardLinkStore) (s : Session)
          → IsFaithful s
          → Answers (store_of which) (private_dir_cnid c which s)
      unfolding private_dir_cnid
      private_dir_cnid-store_of which s f = elim (Option-cases (s.priv_dir which)) [
        | inr (a, q) ↦ rw (private_dir_cnid, q) (ap (λ o. ok o) (f which a q), f)
        | inl q ↦
            rw (private_dir_cnid, q)
              (bind-Answers (store_of which) (store_of which)
                (λ answer s'. (
                  record s' {
                    priv_dir = λ x. if same_store c x which then some answer else s'.priv_dir x;
                  },
                  ok answer,
                ))
                (find_private_dir c which s) (find_private_dir-store_of which s f)
                (λ s' f'. (refl, remembers which (store_of which) s' refl f')))
      ]

      pub inode_in :
          (num : ℕ) (kind : LinkKind) (p : ℕ) (s : Session)
          → IsFaithful s
          → Answers (in_store num kind (some p)) (
              if is_dir_link c kind
              then find_named c p
                  (λ name. same_text name (dir_inode_name_prefix ++ decimal num))
                  folder
                  s
              else find_named c p
                  (λ name. same_text name (inode_name_prefix ++ decimal num))
                  file
                  s)
      inode_in num kind p s f = elim (Bool-cases (is_dir_link c kind)) [
        | inl q ↦
            let named = λ (name : Bytes). same_text name (dir_inode_name_prefix ++ decimal num) in
            rw (q) (
              Finds-Answers s (first_named named folder (d p).trace.0)
                (find_named c p named folder s) f (find_named-first_named p named folder s))
        | inr q ↦
            let named = λ (name : Bytes). same_text name (inode_name_prefix ++ decimal num) in
            rw (q) (
              Finds-Answers s (first_named named file (d p).trace.0) (find_named c p named file s) f
                (find_named-first_named p named file s))
      ]
