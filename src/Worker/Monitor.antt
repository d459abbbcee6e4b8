-- ===== src/Worker/Monitor.antt =====
-- What a history of the worker must look like: a monitor reads the events in order, and allows
-- each call only in the right state.
use snapdog_os_installer.Prelude.{
  ◌≡◌, Bool, true, false, Option, none, some, [], ◌∷◌, ◌++◌, Bytes, Prefix, length,
  eq_ignore_ascii_case,
}
use snapdog_os_installer.Flash.Types.{Crypto}
use snapdog_os_installer.Worker.Types.{WorkerDrive, WorkerJob, WorkerPhase, same_drive}
use snapdog_os_installer.Worker.Trace.{Op, Event, called, reported, History}

-- What has happened so far. `confirmed`: since the last unmount, the platform's last report of the
-- target was of the very drive that the job names.
pub record View : Type 0 where
  pub staged : Bytes
  pub written : Bytes
  pub tried_unmount : Bool
  pub unmounted : Bool
  pub confirmed : Bool
  pub opened : Bool
  pub synced : Bool
  pub tried_eject : Bool
  pub ejected : Bool

abbrev pub start : View
start = record {
  staged = [];
  written = [];
  tried_unmount = false;
  unmounted = false;
  confirmed = false;
  opened = false;
  synced = false;
  tried_eject = false;
  ejected = false;
}

module _ (c : Crypto) (job : WorkerJob) where
  abbrev pub confirms : Option WorkerDrive → Bool
  confirms none = false
  confirms (some d) = same_drive job.drive d

  abbrev pub step : View → Event → View
  step v (reported r) = record v { confirmed = confirms r }
  step v (called (Op.stage b) true) = record v { staged = v.staged ++ b }
  step v (called (Op.write b) true) = record v { written = v.written ++ b; synced = false }
  step v (called (Op.write b) false) = record v { synced = false }
  step v (called Op.unmount done) = record v {
    tried_unmount = true;
    unmounted = done;
    confirmed = false;
    tried_eject = false;
    ejected = false;
  }
  step v (called Op.open_target done) = record v { opened = done }
  step v (called Op.sync_target true) = record v { synced = true }
  step v (called Op.eject done) = record v { tried_eject = true; ejected = done }
  step v (called _ _) = v

  abbrev pub view : History → View
  view [] = start
  view (e ∷ h) = step (view h) e

  -- The bytes are the image that the job names.
  pub record IsImage (b : Bytes) : Type 0 where
    pub size : length b ≡ job.raw_size
    pub digest : eq_ignore_ascii_case (c.hex_encode (c.sha256 b)) job.expected_raw_sha256 ≡ true

  -- The worker has checked the image, and the target is the drive that was selected.
  pub record IsReady (v : View) : Type 0 where
    pub image : IsImage v.staged
    pub same_target : v.confirmed ≡ true

  -- The volumes are unmounted, too, and the target has been confirmed again since.
  pub record IsWritable (v : View) : Type 0 where
    pub ready : IsReady v
    pub unmounted : v.unmounted ≡ true

  -- Everything is on the target, flushed there, and the target is ejected.
  pub record IsDone (v : View) : Type 0 where
    pub image : IsImage v.staged
    pub all_written : v.written ≡ v.staged
    pub synced : v.synced ≡ true
    pub ejected : v.ejected ≡ true

  abbrev pub AllowedEmit : View → WorkerPhase → Type 0
  AllowedEmit v WorkerPhase.completed = IsDone v
  AllowedEmit v _ = Unit

  pub record IsNextWrite (v : View) (b : Bytes) : Type 0 where
    pub writable : IsWritable v
    pub opened : v.opened ≡ true
    pub in_order : Prefix (v.written ++ b) v.staged

  abbrev pub Allowed : View → Op → Type 0
  Allowed v Op.unmount = IsReady v
  Allowed v Op.open_target = IsWritable v
  Allowed v (Op.write b) = IsNextWrite v b
  Allowed v Op.eject = v.tried_unmount ≡ true
  Allowed v (Op.emit p) = AllowedEmit v p.phase
  Allowed v _ = Unit

  abbrev pub AllowedEvent : View → Event → Type 0
  AllowedEvent v (called op done) = Allowed v op
  AllowedEvent v (reported r) = Unit

  abbrev pub Safe : History → Type 0
  Safe [] = Unit
  Safe (e ∷ h) = AllowedEvent (view h) e × Safe h
