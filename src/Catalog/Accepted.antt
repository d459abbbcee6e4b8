-- ===== src/Catalog/Accepted.antt =====
-- What src/catalog.rs lets through, described without the validators.
use snapdog_os_installer.Prelude.{
  ℕ, ◌≤◌, ◌≡◌, ◌≢◌, refl, sym, ap, ◌∙◌, ◌⊎◌, inl, inr, Bool, true, false, not, ◌||◌, Option, none,
  some, List, [], ◌∷◌, Text, length, is_empty, ◌==◌, ◌=ᵗ◌, eqt_iff, any, All, All-map, ==_iff,
  true_false, or_false, ltb, arith, if◌then◌else◌,
}
use snapdog_os_installer.Prelude.Result.{
  Result, ok, err, ◌>>◌, reject_if, ok_or, >>=-eq-ok, reject_if-eq-ok,
}
use snapdog_os_installer.Model.{
  Channel, release, beta, Board, all_boards, ImageInfo, Manifest, ReleaseCatalog, image_for,
}
use snapdog_os_installer.Catalog.Types.{Invalid, CatalogError, invalid_manifest, UrlParts, Crates}
use snapdog_os_installer.Catalog.Percent.{percent_decode}
use snapdog_os_installer.Catalog.Validate.{
  same_channel, expected_name, is_adorned, nonempty, validate_immutable_url, validate_board,
  validate_boards, validate_schema, validate_download_manifest, is_newer, validate_releases,
  validate_catalog,
}

module _ {Version : Type 0} (crates : Crates Version) where
  -- The release names one image for the board, by a plain HTTPS address whose file name is that of
  -- the board and the version.
  pub record IsPublished (m : Manifest) (board : Board) : Type 0 where
    pub image : ImageInfo
    pub listed : image_for m board ≡ some image
    pub value : Text
    pub has_url : image.url ≡ some value
    pub url : UrlParts
    pub parsed : crates.parse_url value ≡ some url
    pub plain : is_adorned url ≡ false
    pub segment : Text
    pub last : url.last_segment ≡ some segment
    pub name : percent_decode segment ≡ some (expected_name board m.version)

  pub record IsVersion2 (m : Manifest) : Type 0 where
    pub schema : m.schema_version ≡ some 2
    pub version : Version
    pub parsed : crates.parse_version m.version ≡ some version
    pub published : All (IsPublished m) all_boards

  -- Releases of the first schema are let through as they are.
  abbrev pub IsRelease : Manifest → Type 0
  IsRelease m = (m.schema_version ≡ none) ⊎ IsVersion2 m

  -- Each version parses, and none is newer than the one before it.
  abbrev pub NewestFirst : Option Version → List Manifest → Type 0
  NewestFirst previous [] = Unit
  NewestFirst previous (m ∷ rest) =
      (v : Version) × (crates.parse_version m.version ≡ some v)
      × (is_newer crates previous v ≡ false)
      × NewestFirst (some v) rest

  abbrev pub DistinctVersions : List Manifest → Type 0
  DistinctVersions [] = Unit
  DistinctVersions (m ∷ rest) =
      All (λ (n : Manifest). n.version ≢ m.version) rest × DistinctVersions rest

  pub record IsCatalog (channel : Channel) (releases : List Manifest) : Type 0 where
    pub at_least_one : 1 ≤ length releases
    pub at_most_twenty : length releases ≤ 20
    pub right_channel : All (λ (m : Manifest). m.channel ≡ channel) releases
    pub safe : All IsRelease releases
    pub sorted : NewestFirst none releases
    pub distinct : DistinctVersions releases

  same_channel-eq : (a b : Channel) → same_channel a b ≡ true → a ≡ b
  same_channel-eq release release h = refl
  same_channel-eq beta beta h = refl
  same_channel-eq release beta h = cc
  same_channel-eq beta release h = cc

  not-false : (b : Bool) → not b ≡ false → b ≡ true
  not-false true h = refl
  not-false false h = cc

  some_of : {A E : Type 0} (o : Option A) (e : E) {a : A} → ok_or o e ≡ ok a → o ≡ some a
  some_of none e h = cc
  some_of (some x) e h = cc (h)

  nonempty_of : (o : Option Text) {t : Text} → nonempty o ≡ some t → o ≡ some t
  nonempty_of none h = cc
  nonempty_of (some s) h = go (is_empty s) h
    where
      go : (b : Bool) {t : Text} → (if b then none else some s) ≡ some t → some s ≡ some t
      go true h = cc
      go false h = h

  -- What the loop over the releases has checked.
  record Loop (channel : Channel) (seen : List Text) (previous : Option Version)
      (releases : List Manifest) : Type 0 where
    right_channel : All (λ (m : Manifest). m.channel ≡ channel) releases
    safe : All IsRelease releases
    sorted : NewestFirst previous releases
    fresh : All (λ (m : Manifest). All (λ (v : Text). v ≢ m.version) seen) releases
    distinct : DistinctVersions releases

  unseen_lem :
      (t : Text) (seen : List Text)
      → any (λ v. v =ᵗ t) seen ≡ false
      → All (λ (v : Text). v ≢ t) seen
  unseen_lem t [] h = tt
  unseen_lem t (v ∷ seen) h =
      let parts = or_false (v =ᵗ t) (any (λ x. x =ᵗ t) seen) h in
      ((λ q. true_false (sym ((eqt_iff v t).1 q) ∙ parts.0)), unseen_lem t seen parts.1)

  count_lem :
      (ms : List Manifest)
      → (is_empty ms || ltb 20 (length ms)) ≡ false
      → (1 ≤ length ms) × (length ms ≤ 20)
  count_lem [] h = cc
  count_lem (m ∷ ms) h = ground arith

  one_lem : (n : ℕ) → not (n == 1) ≡ false → n ≡ 1
  one_lem n h = ground arith

  module _ {HttpError : Type 0} where
    board_lem :
        (m : Manifest) (board : Board)
        → ◌≡◌ {A = Result (CatalogError HttpError) Unit} (validate_board crates m board) (ok tt)
        → IsPublished m board
    unfolding validate_board validate_immutable_url
    board_lem m board h =
        let (image, i, h1) = >>=-eq-ok (ok_or (image_for m board) _) _ h in
        let (value, v, h2) = >>=-eq-ok (ok_or image.url _) _ h1 in
        let (url, u, h3) = >>=-eq-ok (ok_or (crates.parse_url value) _) _ h2 in
        let (d1, plain, h4) = >>=-eq-ok (reject_if (is_adorned url) _) _ h3 in
        let (segment, s, h5) = >>=-eq-ok (ok_or (nonempty url.last_segment) _) _ h4 in
        let (name, n, h6) = >>=-eq-ok (ok_or (percent_decode segment) _) _ h5 in
        record {
          image = image;
          listed = some_of _ _ i;
          value = value;
          has_url = some_of _ _ v;
          url = url;
          parsed = some_of _ _ u;
          plain = reject_if-eq-ok _ _ plain;
          segment = segment;
          last = nonempty_of _ (some_of _ _ s);
          name =
              some_of _ _ n ∙ ap some ((eqt_iff name _).0 (not-false _ (reject_if-eq-ok _ _ h6)));
        }

    boards_lem :
        (m : Manifest) (boards : List Board)
        → ◌≡◌ {A = Result (CatalogError HttpError) Unit} (validate_boards crates m boards) (ok tt)
        → All (IsPublished m) boards
    unfolding validate_boards
    boards_lem m [] h = tt
    boards_lem m (board ∷ rest) h =
        let (d, here, h1) = >>=-eq-ok (validate_board crates m board) _ h in
        (board_lem m board here, boards_lem m rest h1)

    two_lem :
        (m : Manifest) (n : ℕ) (b : Bool)
        → (n == 2) ≡ b
        → m.schema_version ≡ some n
        → ◌≡◌ {A = Result (CatalogError HttpError) Unit}
            (if b
              then ok_or
                  (crates.parse_version m.version)
                  (invalid_manifest (Invalid.invalid_version m.version))
                >> validate_boards crates m all_boards
              else err (invalid_manifest (Invalid.manifest_schema n)))
            (ok tt)
        → IsVersion2 m
    two_lem m n true two e h =
        let (version, v, h1) = >>=-eq-ok (ok_or (crates.parse_version m.version) _) _ h in
        record {
          schema = e ∙ ap some ((==_iff n 2).0 two);
          version = version;
          parsed = some_of _ _ v;
          published = boards_lem m all_boards h1;
        }
    two_lem m n false two e h = cc

    schema_lem :
        (m : Manifest) (schema : Option ℕ)
        → m.schema_version ≡ schema
        → ◌≡◌ {A = Result (CatalogError HttpError) Unit} (validate_schema crates m schema) (ok tt)
        → IsRelease m
    schema_lem m none e h = inl e
    schema_lem m (some n) e h = inr (two_lem m n (n == 2) refl e h)

    pub manifest_lem :
        (m : Manifest)
        → ◌≡◌ {A = Result (CatalogError HttpError) Unit}
            (validate_download_manifest crates m)
            (ok tt)
        → IsRelease m
    unfolding validate_download_manifest
    manifest_lem m h = schema_lem m m.schema_version refl h

    releases_lem :
        (channel : Channel) (seen : List Text) (previous : Option Version)
        (releases : List Manifest)
        → ◌≡◌ {A = Result (CatalogError HttpError) Unit}
            (validate_releases crates channel seen previous releases)
            (ok tt)
        → Loop channel seen previous releases
    unfolding validate_releases
    releases_lem channel seen previous [] h = record {
      right_channel = tt;
      safe = tt;
      sorted = tt;
      fresh = tt;
      distinct = tt;
    }
    releases_lem channel seen previous (m ∷ rest) h =
        let (d1, safe, h1) = >>=-eq-ok (validate_download_manifest crates m) _ h in
        let (d2, right, h2) = >>=-eq-ok (reject_if (not (same_channel m.channel channel)) _) _ h1 in
        let (version, parsed, h3) = >>=-eq-ok (ok_or (crates.parse_version m.version) _) _ h2 in
        let (d4, fresh, h4) = >>=-eq-ok (reject_if (any (λ v. v =ᵗ m.version) seen) _) _ h3 in
        let (d5, sorted, h5) = >>=-eq-ok (reject_if (is_newer crates previous version) _) _ h4 in
        let others = releases_lem channel (m.version ∷ seen) (some version) rest h5 in
        record {
          right_channel =
              (same_channel-eq _ _ (not-false _ (reject_if-eq-ok _ _ right)), others.right_channel);
          safe = (manifest_lem m safe, others.safe);
          sorted = (version, some_of _ _ parsed, reject_if-eq-ok _ _ sorted, others.sorted);
          fresh = (
            unseen_lem m.version seen (reject_if-eq-ok _ _ fresh),
            All-map (λ n a. a.1) rest others.fresh,
          );
          distinct = (All-map (λ n a q. a.0 (sym q)) rest others.fresh, others.distinct);
        }

    -- A catalog that the validation accepts has 1 to 20 releases of the channel asked for, newest
    -- first and of distinct versions, each of the first schema or with the right name, in a plain
    -- HTTPS address, for every board.
    pub validate_catalog-IsCatalog :
        (catalog : ReleaseCatalog) (channel : Channel)
        → ◌≡◌ {A = Result (CatalogError HttpError) Unit}
            (validate_catalog crates catalog channel)
            (ok tt)
        → (catalog.schema_version ≡ 1)
          × (catalog.channel ≡ channel)
          × IsCatalog channel catalog.releases
    unfolding validate_catalog
    validate_catalog-IsCatalog catalog channel h =
        let (d1, schema, h1) = >>=-eq-ok (reject_if (not (catalog.schema_version == 1)) _) _ h in
        let (d2, right, h2) =
          >>=-eq-ok (reject_if (not (same_channel catalog.channel channel)) _) _ h1 in
        let (d3, count, h3) =
          >>=-eq-ok (reject_if (is_empty catalog.releases || ltb 20 (length catalog.releases)) _) _
            h2 in
        let loop = releases_lem channel [] none catalog.releases h3 in
        let sizes = count_lem catalog.releases (reject_if-eq-ok _ _ count) in
        (
          one_lem catalog.schema_version (reject_if-eq-ok _ _ schema),
          same_channel-eq _ _ (not-false _ (reject_if-eq-ok _ _ right)),
          record {
            at_least_one = sizes.0;
            at_most_twenty = sizes.1;
            right_channel = loop.right_channel;
            safe = loop.safe;
            sorted = loop.sorted;
            distinct = loop.distinct;
          },
        )
