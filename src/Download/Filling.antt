-- ===== src/Download/Filling.antt =====
-- `fill_partial` and its publication (src/download.rs): what is on disk after a success.
use snapdog_os_installer.Prelude.{
  ℕ, ◌≡◌, refl, false, Option, none, some, some-injective, [], Bytes, Text, length, sym, ◌∙◌, ap,
  subst,
}
use snapdog_os_installer.Prelude.Exec.{
  Triple, Triple-bind, Triple-pure, Triple-fail_if, Triple-post, Triple-pre, Triple-assume,
}
use snapdog_os_installer.Flash.Types.{Crypto, Replies, contents}
use snapdog_os_installer.Download.Types.{
  Destination, DownloadReport, Files, same_file, set_file, Env,
}
use snapdog_os_installer.Download.Fetch.{differs, wrong_digest, publish, fill_partial, partial_path}
use snapdog_os_installer.Download.Calls.{
  set_file-same, set_file-other, same_file-partial, file_call_lem, read_file_lem,
  ensure_available_lem,
}
use snapdog_os_installer.Download.Published.{Elsewhere, Filled, Received, download_loop_lem}

module _ (H : Type 0) (c : Crypto) (env : Env) (destination : Destination) (before : Files) where
  -- The partial file has become the destination, which was not there before.
  pub record IsPublished (b : Bytes) (target : Text × Text) (files : Files) : Type 0 where
    pub content : files target ≡ some b
    pub was_free : before target ≡ none
    pub no_partial : files (partial_path target) ≡ none
    pub others :
        (j : Text × Text)
        → same_file j target ≡ false
        → same_file j (partial_path target) ≡ false
        → files j ≡ before j

  rename_lem :
      (target : Text × Text) (b : Bytes) (content : Option Bytes) (files : Files)
      → Filled H c env destination before (partial_path target) b files
      → files target ≡ none
      → content ≡ some b
      → IsPublished b target (set_file (partial_path target) none (set_file target content files))
  rename_lem target b content files filled free e = record {
    content =
        set_file-other (partial_path target) none _ target (same_file-partial target)
        ∙ set_file-same target content files
        ∙ e;
    was_free = sym (filled.0 target (same_file-partial target)) ∙ free;
    no_partial = set_file-same (partial_path target) none _;
    others = λ j t p.
        set_file-other (partial_path target) none _ j p
        ∙ set_file-other target content files j t
        ∙ filled.0 j p;
  }

  publish_lem :
      (name : Text) (b : Bytes)
      → destination.file_name ≡ some name
      → Triple
          (λ w.
            Filled H c env destination before (partial_path (destination.parent, name)) b w.files)
          (publish {H = H} env destination (partial_path (destination.parent, name)))
          (λ _ w. IsPublished b (destination.parent, name) w.files)
          (λ _ w.
            Elsewhere H c env destination before (partial_path (destination.parent, name)) w.files)
  unfolding publish
  publish_lem name b e =
      Triple-bind (λ _ w. Full w.files)
        (Triple-post (λ _ w q. q) (λ _ w q. q.0)
          (file_call_lem Full Full Full env.sync _ _ (λ f p. p) (λ f p. p)))
        λ _.
          Triple-bind (λ t w. (Full w.files × (w.files t ≡ none)) × (t ≡ target))
            (Triple-post (λ t w q. ((q.0, q.1), named t q.2)) (λ _ w q. q.0)
              (ensure_available_lem Full env destination destination.file_name))
            λ t. Triple-assume λ same.
              Triple-bind
                (λ content w. (Full w.files × (w.files t ≡ none)) × (w.files key ≡ content))
                (Triple-post (λ _ w q. q) (λ _ w q. q.0.0)
                  (read_file_lem (λ f. Full f × (f t ≡ none)) key))
                λ content.
                  file_call_lem (λ f. (Full f × (f t ≡ none)) × (f key ≡ content))
                    (λ f. IsPublished b target f) (Elsewhere H c env destination before key)
                    env.rename _ _
                    (λ f p.
                      subst
                        (λ (x : Text × Text).
                          IsPublished b target (set_file key none (set_file x content f)))
                        (sym same)
                        (rename_lem target b content f p.0.0
                          (subst (λ (x : Text × Text). f x ≡ none) same p.0.1) (sym p.1 ∙ p.0.0.1)))
                    (λ f p. p.0.0.0)
    where
      target : Text × Text
      target = (destination.parent, name)

      key : Text × Text
      key = partial_path target

      Full : Files → Type 0
      Full = Filled H c env destination before key b

      named :
          (t : Text × Text)
          → ((n : Text) × (destination.file_name ≡ some n) × (t ≡ (destination.parent, n)))
          → t ≡ target
      named t (n, f, g) =
          g ∙ ap (λ (x : Text). (destination.parent, x)) (some-injective _ _ (sym f ∙ e))

  -- What a returned report says of the reader and of the files.
  pub record Finished (expected_digest : Option Bytes) (expected_size : Option ℕ) (reads : Replies)
      (target : Text × Text) (r : DownloadReport) (files : Files) : Type 0 where
    pub published : IsPublished (contents reads) target files
    pub size : r.bytes_downloaded ≡ length (contents reads)
    pub digest : r.sha256 ≡ c.hex_encode (c.sha256 (contents reads))
    pub right_size : differs (length (contents reads)) expected_size ≡ false
    pub right_digest : wrong_digest c (contents reads) expected_digest ≡ false

  -- What is known when the partial file is complete.
  record Facts (expected_digest : Option Bytes) (expected_size : Option ℕ) (reads : Replies)
      (done : Bytes × ℕ) : Type 0 where
    received : done.0 ≡ contents reads
    counted : done.1 ≡ length done.0
    right_size : differs done.1 expected_size ≡ false
    right_digest : wrong_digest c done.0 expected_digest ≡ false

  pub fill_partial_lem :
      (name : Text) (expected_digest : Option Bytes) (expected_size : Option ℕ) (reads : Replies)
      → destination.file_name ≡ some name
      → Triple
          (λ w.
            Filled H c env destination before (partial_path (destination.parent, name)) [] w.files)
          (fill_partial {H = H} c env destination
            (partial_path (destination.parent, name))
            expected_digest
            expected_size
            reads)
          (λ r w. Finished expected_digest expected_size reads (destination.parent, name) r w.files)
          (λ _ w.
            Elsewhere H c env destination before (partial_path (destination.parent, name)) w.files)
  unfolding fill_partial
  fill_partial_lem name expected_digest expected_size reads e =
      Triple-bind (Received H c env destination before reads key)
        (download_loop_lem H c env destination before reads key expected_size reads [] 0 refl refl)
        λ done.
          Triple-bind
            (λ _ w.
              Received H c env destination before reads key done w
              × (differs done.1 expected_size ≡ false))
            (Triple-fail_if (differs done.1 expected_size) _ λ w q. q.0.0)
            λ _.
              Triple-bind
                (λ _ w.
                  (Received H c env destination before reads key done w
                    × (differs done.1 expected_size ≡ false))
                  × (wrong_digest c done.0 expected_digest ≡ false))
                (Triple-fail_if (wrong_digest c done.0 expected_digest) _ λ w q. q.0.0.0)
                λ _.
                  Triple-pre
                    (λ w q. (
                      q.0.0.0,
                      record {
                        received = q.0.0.1;
                        counted = q.0.0.2;
                        right_size = q.0.1;
                        right_digest = q.1;
                      },
                    ))
                    (Triple-assume λ (facts : Facts expected_digest expected_size reads done).
                      Triple-bind (λ _ w. IsPublished done.0 (destination.parent, name) w.files)
                        (publish_lem name done.0 e)
                        λ _. Triple-pure _ λ w p.
                          let b : done.0 ≡ contents reads = facts.received in
                          let l : done.1 ≡ length (contents reads) = facts.counted ∙ ap length b in
                          record {
                            published =
                                subst
                                  (λ (x : Bytes). IsPublished x (destination.parent, name) w.files)
                                  b p;
                            size = l;
                            digest = ap (λ (x : Bytes). c.hex_encode (c.sha256 x)) b;
                            right_size =
                                ap (λ (n : ℕ). differs n expected_size) (sym l) ∙ facts.right_size;
                            right_digest =
                                ap (λ (x : Bytes). wrong_digest c x expected_digest) (sym b)
                                ∙ facts.right_digest;
                          })
    where
      key : Text × Text
      key = partial_path (destination.parent, name)
