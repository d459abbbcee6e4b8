-- ===== src/Platform/Tests.antt =====
-- A disk in memory, and what the platform workers find.
use snapdog_os_installer.Prelude.{
  ℕ, zero, suc, ◌≡◌, refl, ap, ◌∙◌, true, [], ◌∷◌, Bytes, length, take, drop, length-take_le, arith,
}
use snapdog_os_installer.Prelude.Result.{ok}
use snapdog_os_installer.Prelude.Integers.{negsuc}
use snapdog_os_installer.Prelude.Exec.{modify, ◌>>=◌, Triple, Triple-modify}
use snapdog_os_installer.Drives.Windows.{valid_sector_geometry, is_power_of_two}
use snapdog_os_installer.Platform.Verifier.Transfer.{linux_limits, windows_limits}
use snapdog_os_installer.Platform.Verifier.Read.{
  DiskFile, current, read, read_direct, read_unbuffered, seek,
}
use snapdog_os_installer.Platform.Verifier.Bounds.{Serves, linux_transfer, windows_transfer}
use snapdog_os_installer.Platform.Verifier.Reading.{
  DiskContract, IsNext, Stands, linux_read_lem, windows_read_lem,
}
use snapdog_os_installer.Platform.Verifier.Seeking.{Reached, Unmoved, seek_lem}

abbrev repeat : ℕ → ℕ → Bytes
repeat zero x = []
repeat (suc n) x = x ∷ repeat n x

abbrev two_sectors : Bytes
two_sectors = repeat 1024 7

-- The state is the position of the file.
abbrev memory_disk : Bytes → DiskFile ℕ
memory_disk disk = record {
  seek_start = λ n. modify (λ w. n);
  read = λ k w. (ok (take k (drop w disk)), w);
}

take_length : (k : ℕ) (xs : Bytes) → take k xs ≡ take (length (take k xs)) xs
take_length zero xs = refl
take_length (suc k) [] = refl
take_length (suc k) (x ∷ xs) = ap (λ (l : Bytes). x ∷ l) (take_length k xs)

abbrev Anywhere : ℕ → Type 0
Anywhere w = Unit

memory_disk_contract : (disk : Bytes) → DiskContract (memory_disk disk) disk (λ n w. w ≡ n) Anywhere
memory_disk_contract disk = record {
  seek_start = λ n. Triple-modify _ λ w i. refl;
  read = λ n k. record {
    at = λ w e. (
      tt,
      take_length k (drop w disk)
          ∙ ap (λ (p : ℕ). take (length (take k (drop w disk))) (drop p disk)) e,
      length-take_le k (drop w disk),
    );
  };
}

-- Across the border of the sectors.
across :
    (read linux_limits (memory_disk two_sectors) 1024 3 (record { position = 510; world = 0 })).0
    ≡ ok (7 ∷ 7 ∷ 7 ∷ [])
unfolding read linux_limits ◌>>=◌
across = refl

linux_transfer_example : Serves linux_limits 1024 510 3
linux_transfer_example = linux_transfer 1024 510 3 (omega arith) (omega arith)

valid_geometry : valid_sector_geometry 1024 512 512 ≡ true
unfolding valid_sector_geometry is_power_of_two
valid_geometry = refl

windows_transfer_example : Serves (windows_limits 512 512) 1024 510 3
windows_transfer_example =
    windows_transfer 1024 512 512 510 3 valid_geometry (omega arith) (omega arith) (omega arith)

linux_read_example :
    Triple
      (Stands two_sectors 1024 Anywhere 510)
      (read_direct (memory_disk two_sectors) 1024 3)
      (IsNext two_sectors 1024 Anywhere 510 3)
      (λ _. Stands two_sectors 1024 Anywhere 510)
linux_read_example =
    linux_read_lem (memory_disk two_sectors) two_sectors 1024 (memory_disk_contract two_sectors) 510
      3

windows_read_example :
    Triple
      (Stands two_sectors 1024 Anywhere 510)
      (read_unbuffered (memory_disk two_sectors) 1024 512 512 3)
      (IsNext two_sectors 1024 Anywhere 510 3)
      (λ _. Stands two_sectors 1024 Anywhere 510)
windows_read_example =
    windows_read_lem (memory_disk two_sectors) two_sectors 1024 512 512
      (memory_disk_contract two_sectors) valid_geometry (omega arith) 510 3

seek_example :
    Triple
      (λ v. v.position ≡ 510)
      (seek linux_limits (memory_disk two_sectors) 1024 (current (negsuc 9)))
      (Reached linux_limits (memory_disk two_sectors) 1024 (current (negsuc 9)) 510)
      (λ _. Unmoved linux_limits (memory_disk two_sectors) 1024 (current (negsuc 9)) 510)
seek_example = seek_lem linux_limits (memory_disk two_sectors) 1024 (current (negsuc 9)) 510
