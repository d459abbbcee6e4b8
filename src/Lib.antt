-- ===== src/Lib.antt =====
-- SnapDog OS Installer: a desktop program that downloads a SnapDog OS image and writes it to a
-- removable drive. The GUI process downloads and unpacks the image and picks a drive; a privileged
-- worker process, started with a job, checks the job, copies the image where no one else can
-- change it, unmounts the drive, writes, reads back, syncs and ejects, and reports its progress
-- as events.
--
-- Model (src/model.rs): channels, boards, release manifests, images and drives.
-- Catalog (src/catalog.rs): Catalog.Validate has one function per validator, Catalog.Percent the
--   decoder of file names, Catalog.Fetch the requests. The crates reqwest, url and semver are the
--   records Crates and Response and the argument `get`.
-- Download (src/download.rs): Download.Fetch has download, download_from_reader and PartialDownload
--   over a map of files by directory and name. Each call on a file, and each look at the flag,
--   is answered by a function of the number of calls so far; a failed write may leave anything
--   in the partial file. No other process changes the files meanwhile. Drop is a call on the error
--   path, since a published file is not removed.
-- Drives (src/drives.rs, and valid_worker_drive of src/worker.rs): MacOs, Linux and Windows are the
--   three builds. Each takes what the operating system answers (I/O Registry records, the files of
--   /sys/block, disk records) as data and has removable_drives and the worker's check of a drive.
-- Flash (src/flash.rs): Flash.Write has write_raw_from_with_prepare over a record of operations
--   (FlashIo) on the caller's state: the input, the target, the two flags and the callback. What
--   the input and the target return from successive reads is a list of replies; a list that ends
--   is a reader at its end, so the two loops are recursion on that list and need no fuel. A
--   Sha256 value is the list of the bytes fed to it, and the digest function is a parameter.
--   Flash.Contract says what a caller provides. Flash.Prepare has prepare_gzip in the same way; what
--   its GzDecoder returns is a list of replies too.
-- Worker (src/worker.rs): Worker.Run has run_and_report, run_job and run_after_unmount, Worker.Stage
--   the copy of the image, Worker.Signals the markers for cancelling and skipping, Worker.Job the
--   validation of a job. Every call with an effect is an event of a history (Worker.Trace), and the
--   surroundings answer each call by a function of the history, so that markers may appear and
--   drives may change at any time. Worker.Monitor says which histories are allowed.
--   Worker.Session is PrivilegedSession, in the Linux build; the looks at the file system are
--   numbered, and each may have another answer.
-- Pipeline (src/pipeline.rs): Pipeline.Run has run_pipeline over a world of which nothing is known:
--   each call with an effect is answered by a function of the world, which may change with it, and
--   only the launches of the worker are recorded, each with the world that it was called on. Where a
--   theorem speaks of what a file holds, FileContract of Pipeline.Run.Files says what the calls do to
--   files that no one else changes. Pipeline.Control has the calls of cancel and
--   skip_verification and the registration of the markers as steps of several threads, between
--   which any other step may come. Pipeline.Job has the job and the tests of a request,
--   Pipeline.Progress the reader of the worker's progress file (ProgressTail of
--   src/pipeline/linux.rs, macos.rs and windows.rs), of which each call of `drain` reads any piece,
--   Pipeline.Quoting the command line of src/pipeline/windows.rs; what a program reads from it is a
--   relation, by the documented rules.
-- Platform (src/worker): Platform.Verifier has the aligned reads by which the worker of Linux
--   (DirectVerifier of src/worker/linux.rs) and of Windows (UnbufferedVerifier of
--   src/worker/windows.rs) reads a disk back; the disk answers each read by what it is asked.
--   Platform.Linux has the check of the target disk, validate_target_at, with its parsers. The files
--   of the kernel are the record Kernel, one state of them for a whole check. The search for the
--   devices that stand on a disk is a loop on fuel; a fuel of one more than the device numbers that
--   the kernel names and the entries of the disk's directory is enough, since each round takes a
--   device off the stack of those to visit, and none comes onto it twice. Sums of
--   u8 wrap around, as in the release build.
-- App (src/app.rs): App.Types has the state of the window, App.Step what the two channels and the
--   controls do to it, App.Request the request that an operation starts with. The controls are steps
--   that may come in any order and with any argument, which is more than the screens allow; only
--   what a screen shows by the state of the operation is a guard. What the thread of an operation
--   sends is arbitrary.
--
-- Numbers are natural numbers; where the code relies on 64 or 32 bits, the checked operation is
-- written out (checked_add, checked_mul, parse_below) or the bound is a hypothesis. Texts are
-- their bytes in UTF-8.
--
-- Not modelled: the decoding of gzip, flash_gzip, the worker's session on Windows and macOS, the
-- start of the worker with administrator rights, the calls of UDisks2 and of the native layers
-- (opening, unmounting and ejecting a disk), the disk snapshots of Windows, the worker of macOS, the
-- drawing of the window with its texts and its closing, logging, and the packaging.
-- `to_string_lossy` on a device name and the display texts of errors are taken as given.
pub mod Prelude
pub mod Model
pub mod Catalog
pub mod Download
pub mod Drives
pub mod Flash
pub mod Worker
pub mod Pipeline
pub mod Platform
pub mod App
