-- ===== src/Pipeline/Run/Files.antt =====
-- What `run_pipeline` of src/pipeline.rs leaves in the job's file, given what the file system does.
use snapdog_os_installer.Prelude.{
  ◌≡◌, Bool, Option, some, [], ◌++◌, Bytes, text, not, if◌then◌else◌,
}
use snapdog_os_installer.Prelude.Result.{Result, ok, err}
use snapdog_os_installer.Prelude.Exec.{
  Exec, pure, fail_if, Post, convert, map_error, Triple, Triple-bind, Triple-pure, Triple-raise,
  Triple-lift, Triple-fail_if, Triple-if, Triple-post, Triple-attempt,
}
use snapdog_os_installer.Flash.Types.{IoError}
use snapdog_os_installer.Worker.Types.{FilePath, WorkerJob}
use snapdog_os_installer.Pipeline.Types.{
  PipelineError, PipelineEvent, PipelineIo, PipelineControlError, MarkerPaths, State,
}
use snapdog_os_installer.Pipeline.Run.{
  within, ask, on_world, set_control, ensure_not_cancelled, write_json, touched, touch_marker,
  register_markers,
}
use snapdog_os_installer.Pipeline.Run.Steps.{Holds}

module _ {H W : Type 0} (io : PipelineIo H W) (content : W → FilePath → Option Bytes) where
  -- The file is there, with these bytes.
  abbrev pub Contains : FilePath → Bytes → W → Type 0
  Contains path b w = content w path ≡ some b

  -- What the file system does with files that no one else changes: a file that could be created as a
  -- new one is empty, and creating a file leaves the others alone, and one that is there; what is
  -- written comes at the end; nothing else that the run calls changes a file.
  pub record FileContract : Type 0 where
    pub create_new :
        (p : FilePath) → Triple (λ _. Unit) (io.create_new p) (λ _. Contains p []) (λ _ _. Unit)
    pub create_other :
        (q p : FilePath) (b : Bytes)
        → Triple (Contains p b) (io.create_new q) (λ _. Contains p b) (λ _. Contains p b)
    pub write_all :
        (p : FilePath) (b x : Bytes)
        → Triple (Contains p b) (io.write_all p x) (λ _. Contains p (b ++ x)) (λ _ _. Unit)
    pub permissions :
        (q p : FilePath) (b : Bytes)
        → Triple
            (Contains p b)
            (io.set_private_file_permissions q)
            (λ _. Contains p b)
            (λ _ _. Unit)
    pub sync_all :
        (q p : FilePath) (b : Bytes)
        → Triple (Contains p b) (io.sync_all q) (λ _. Contains p b) (λ _ _. Unit)
    pub load_cancelled :
        (p : FilePath) (b : Bytes) (w : W) → Contains p b w → Contains p b (io.load_cancelled w).1
    pub load_skip :
        (p : FilePath) (b : Bytes) (w : W)
        → Contains p b w
        → Contains p b (io.load_skip_verification w).1
    pub lock_markers :
        (p : FilePath) (b : Bytes) (w : W) → Contains p b w → Contains p b (io.lock_markers w).1
    pub emit :
        (e : PipelineEvent) (p : FilePath) (b : Bytes) (w : W)
        → Contains p b w
        → Contains p b (io.emit e w)

  -- Nothing is launched, and the world is as described.
  abbrev pub Still : (W → Type 0) → State W → Type 0
  Still K s = Holds (λ launches. launches ≡ []) s × K s.world

  abbrev pub Unlaunched : State W → Type 0
  Unlaunched = Holds (λ launches. launches ≡ [])

  -- A call after which the world is as described, or which fails.
  abbrev pub Steps :
      {A : Type 0} → (W → Type 0) → Exec (State W) (PipelineError H) A → (A → W → Type 0) → Type 0
  Steps K m T = Triple (Still K) m (λ a. Still (T a)) (λ _. Unlaunched)

  within_Post :
      {E A : Type 0} (T : A → W → Type 0) (f : E → PipelineError H) (r : Result E A × W)
      (s : State W)
      → Unlaunched s
      → Post T (λ _ _. Unit) r.0 r.1
      → Post
          (λ a. Still (T a))
          (λ _. Unlaunched)
          (convert f r).0
          (record s { world = (convert f r).1 })
  within_Post T f (ok a, w) s h y = (h, y)
  within_Post T f (err e, w) s h y = h

  pub within_Steps :
      {E A : Type 0} {K : W → Type 0} {T : A → W → Type 0} (f : E → PipelineError H)
      {m : Exec W E A}
      → Triple K m T (λ _ _. Unit)
      → Steps K (within f m) T
  unfolding within map_error
  within_Steps {T = T} f {m = m} t = record {
    at = λ s h. within_Post T f (m s.world) s h.0 (t.at s.world h.1);
  }

  ask_Steps :
      {K : W → Type 0} (load : W → Bool × W)
      → ((w : W) → K w → K (load w).1)
      → Steps K (ask load) (λ _. K)
  unfolding ask
  ask_Steps load keep = record { at = λ s h. (h.0, keep s.world h.1) }

  pub on_world_Steps :
      {K : W → Type 0} (f : W → W) → ((w : W) → K w → K (f w)) → Steps K (on_world f) (λ _. K)
  unfolding on_world
  on_world_Steps f keep = record { at = λ s h. (h.0, keep s.world h.1) }

  fail_if_Steps :
      (K : W → Type 0) (bad : Bool) (e : PipelineError H) → Steps K (fail_if bad e) (λ _. K)
  fail_if_Steps K bad e =
      Triple-post (λ _ s h. h.0) (λ _ s h. h)
        (Triple-fail_if {P = Still K} {R = λ _. Unlaunched} bad e λ s h. h.0)

  -- The job's file holds the encoded job and a line end.
  abbrev pub HasJob : FilePath → WorkerJob → W → Type 0
  HasJob path job w =
      (encoded : Bytes) × (io.to_vec job ≡ ok encoded)
      × (content w path ≡ some (encoded ++ text "\n"))

  module _ (k : FileContract) where
    pub write_json-HasJob :
        (path : FilePath) (job : WorkerJob)
        → Steps (λ _. Unit) (write_json io path job) (λ _. HasJob path job)
    unfolding write_json
    write_json-HasJob path job =
        Triple-bind (λ encoded. Still (λ _. io.to_vec job ≡ ok encoded))
          (within_Steps PipelineError.serialization
            (Triple-post (λ _ w q. q.1) (λ _ w q. tt) (Triple-lift (io.to_vec job) λ _ w h. tt)))
          λ encoded. record {
            at = λ s h.
                (Triple-bind (λ _. Still (Contains path []))
                    (within_Steps PipelineError.io (k.create_new path))
                    λ _.
                      Triple-bind (λ _. Still (Contains path []))
                        (within_Steps PipelineError.io (k.permissions path path []))
                        λ _.
                          Triple-bind (λ _. Still (Contains path encoded))
                            (within_Steps PipelineError.io (k.write_all path [] encoded))
                            λ _.
                              Triple-bind (λ _. Still (Contains path (encoded ++ text "\n")))
                                (within_Steps PipelineError.io
                                  (k.write_all path encoded (text "\n")))
                                λ _.
                                  Triple-post (λ _ t q. (q.0, (encoded, h.1, q.1))) (λ _ t q. q)
                                    (within_Steps PipelineError.io
                                      (k.sync_all path path (encoded ++ text "\n")))).at
                  s (h.0, tt);
          }

    module _ (path : FilePath) (b : Bytes) where
      touched_lem :
          (q : FilePath) (result : Result IoError Unit)
          → Triple
              (Post (λ _. Contains path b) (λ _. Contains path b) result)
              (touched io q result)
              (λ _. Contains path b)
              (λ _ _. Unit)
      touched_lem q (ok u) =
          Triple-bind (λ _. Contains path b) (k.permissions q path b) λ _. k.sync_all q path b
      touched_lem q (err e) =
          Triple-if (io.is_already_exists e) (λ _. Triple-pure tt λ w h. h)
            (λ _. Triple-raise e λ w h. tt)

      touch_marker_lem :
          (q : FilePath)
          → Triple (Contains path b) (touch_marker io q) (λ _. Contains path b) (λ _ _. Unit)
      unfolding touch_marker
      touch_marker_lem q =
          Triple-bind (Post (λ _. Contains path b) (λ _. Contains path b))
            (Triple-attempt (k.create_other q path b)) λ result. touched_lem q result

      pub ensure_not_cancelled_Steps :
          Steps (Contains path b) (ensure_not_cancelled io) (λ _. Contains path b)
      unfolding ensure_not_cancelled
      ensure_not_cancelled_Steps =
          Triple-bind (λ _. Still (Contains path b))
            (ask_Steps io.load_cancelled (k.load_cancelled path b))
            λ c. fail_if_Steps _ c PipelineError.cancelled

      marker_Steps :
          (c : Bool) (q : FilePath) (f : IoError → PipelineError H)
          → Steps
              (Contains path b)
              (if c then within f (touch_marker io q) else pure tt)
              (λ _. Contains path b)
      marker_Steps c q f =
          Triple-if c (λ _. within_Steps f (touch_marker_lem q)) (λ _. Triple-pure tt λ s h. h)

      set_markers_Steps :
          (paths : Option MarkerPaths)
          → Steps
              (Contains path b)
              (set_control λ control. record control { markers = paths })
              (λ _. Contains path b)
      unfolding set_control
      set_markers_Steps paths = record { at = λ s h. h }

      pub register_markers_Steps :
          (cancel skip : FilePath)
          → Steps (Contains path b) (register_markers io cancel skip) (λ _. Contains path b)
      unfolding register_markers
      register_markers_Steps cancel skip =
          Triple-bind (λ _. Still (Contains path b))
            (ask_Steps io.lock_markers (k.lock_markers path b))
            λ works.
              Triple-bind (λ _. Still (Contains path b))
                (fail_if_Steps _ (not works)
                  (PipelineError.control PipelineControlError.unavailable))
                λ _.
                  Triple-bind (λ _. Still (Contains path b)) (set_markers_Steps _)
                    λ _.
                      Triple-bind (λ _. Still (Contains path b))
                        (ask_Steps io.load_cancelled (k.load_cancelled path b))
                        λ c.
                          Triple-bind (λ _. Still (Contains path b)) (marker_Steps c cancel _)
                            λ _.
                              Triple-bind (λ _. Still (Contains path b))
                                (ask_Steps io.load_skip_verification (k.load_skip path b))
                                λ d. marker_Steps d skip _
