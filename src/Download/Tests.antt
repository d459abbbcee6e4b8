-- ===== src/Download/Tests.antt =====
-- A download of three bytes, in an empty directory.
use snapdog_os_installer.Prelude.{◌≡◌, refl, false, none, some, [], ◌∷◌, Text, text}
use snapdog_os_installer.Prelude.Result.{ok, err}
use snapdog_os_installer.Prelude.Exec.{◌>>=◌, Triple}
use snapdog_os_installer.Flash.Types.{Crypto, Replies}
use snapdog_os_installer.Download.Types.{Destination, checksum_mismatch, Files, Env, World}
use snapdog_os_installer.Download.Fetch.{download_from_reader}
use snapdog_os_installer.Download.Filling.{Finished}
use snapdog_os_installer.Download.Outcome.{Unchanged, Aborted, download_from_reader_lem}

abbrev plain_crypto : Crypto
plain_crypto = record { sha256 = λ b. b; hex_encode = λ b. b; hex_decode = λ t. some t }

abbrev calm : Env
calm = record {
  cancelled = λ n. false;
  exists = λ n. ok tt;
  create = λ n. ok tt;
  write = λ n. ok tt;
  torn = λ n. [];
  sync = λ n. ok tt;
  rename = λ n. ok tt;
  remove = λ n. ok tt;
}

abbrev no_files : Files
no_files key = none

abbrev image_path : Destination
image_path = record { parent = text "/d"; file_name = some (text "image") }

abbrev image_reads : Replies
image_reads = ok (1 ∷ 2 ∷ []) ∷ ok (3 ∷ []) ∷ ok [] ∷ []

abbrev empty_world : World
empty_world = record { calls = 0; files = no_files }

-- A wrong digest: nothing is published, and the partial file is gone.
mismatch_run :
    (download_from_reader {H = Unit} plain_crypto calm image_path
      (some (9 ∷ []))
      (some 3)
      image_reads
      empty_world).0
    ≡ err checksum_mismatch
unfolding download_from_reader text ◌>>=◌
mismatch_run = refl

image_run :
    (download_from_reader {H = Unit} plain_crypto calm image_path
        (some (1 ∷ 2 ∷ 3 ∷ []))
        (some 3)
        image_reads
        empty_world).1.files
      (text "/d", text "image")
    ≡ some (1 ∷ 2 ∷ 3 ∷ [])
unfolding download_from_reader text ◌>>=◌
image_run = refl

download_from_reader_example :
    Triple
      (λ w. Unchanged Unit plain_crypto calm image_path no_files w.files)
      (download_from_reader {H = Unit} plain_crypto calm image_path
        (some (1 ∷ 2 ∷ 3 ∷ []))
        (some 3)
        image_reads)
      (λ r w.
        (name : Text) × (image_path.file_name ≡ some name)
        × Finished Unit plain_crypto calm image_path no_files
            (some (1 ∷ 2 ∷ 3 ∷ []))
            (some 3)
            image_reads
            (image_path.parent, name)
            r
            w.files)
      (λ _ w. Aborted Unit plain_crypto calm image_path no_files w.files)
download_from_reader_example =
    download_from_reader_lem Unit plain_crypto calm image_path no_files (some (1 ∷ 2 ∷ 3 ∷ []))
      (some 3) image_reads
