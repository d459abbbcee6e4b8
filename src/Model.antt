-- ===== src/Model.antt =====
-- src/model.rs: releases, boards and drives.
use snapdog_os_installer.Prelude.{
  ℕ, ◌/◌, ◌%◌, Option, none, some, List, [], ◌∷◌, ◌++◌, Text, text, show, leb, map_get,
  if◌then◌else◌,
}

pub data Channel : Type 0 where
  release beta : Channel

unfoldable pub channel_label : Channel → Text
unfolding text
channel_label release = text "Stable"
channel_label beta = text "Beta"

unfoldable pub manifest_name : Channel → Text
unfolding text
manifest_name release = text "release"
manifest_name beta = text "beta"

pub data Board : Type 0 where
  pi5 pi4 pi3 zero2w : Board

abbrev pub all_boards : List Board
all_boards = pi5 ∷ pi4 ∷ pi3 ∷ zero2w ∷ []

unfoldable pub board_id : Board → Text
unfolding text
board_id pi5 = text "pi5"
board_id pi4 = text "pi4"
board_id pi3 = text "pi3"
board_id zero2w = text "zero2w"

unfoldable pub board_label : Board → Text
unfolding text
board_label pi5 = text "Raspberry Pi 5"
board_label pi4 = text "Raspberry Pi 4"
board_label pi3 = text "Raspberry Pi 3"
board_label zero2w = text "Raspberry Pi Zero 2 W"

pub record ImageInfo : Type 0 where
  pub image : Text
  pub sha256 : Option Text
  pub url : Option Text
  pub compressed_size : Option ℕ
  pub uncompressed_size : Option ℕ
  pub raw_sha256 : Option Text

pub record Manifest : Type 0 where
  pub schema_version : Option ℕ
  pub channel : Channel
  pub version : Text
  pub commit : Option Text
  pub date : Text
  pub boards : List (Text × ImageInfo)

pub record ReleaseCatalog : Type 0 where
  pub schema_version : ℕ
  pub channel : Channel
  pub releases : List Manifest

unfoldable pub image_for : Manifest → Board → Option ImageInfo
unfolding map_get board_id
image_for manifest board = map_get (board_id board) manifest.boards

unfoldable pub download_reference : ImageInfo → Text
download_reference info = elim info.url [ none ↦ info.image | some url ↦ url ]

pub record ImageSelection : Type 0 where
  pub board : Board
  pub manifest : Manifest
  pub url : Text

pub record Drive : Type 0 where
  pub id : Text
  pub device : Text
  pub name : Text
  pub capacity : ℕ

abbrev gigabyte : ℕ
gigabyte = 1000000000

abbrev megabyte : ℕ
megabyte = 1000000

unfoldable pub format_capacity : ℕ → Text
unfolding show text
format_capacity bytes =
    if leb gigabyte bytes
    then show (bytes / gigabyte) ++ text "." ++ show (bytes % gigabyte / 100000000) ++ text " GB"
    else show (bytes / megabyte) ++ text " MB"

-- The dash between the name and the capacity is U+2014, in UTF-8.
unfoldable pub drive_label : Drive → Text
unfolding format_capacity
drive_label drive = drive.name ++ (32 ∷ 0xE2 ∷ 0x80 ∷ 0x94 ∷ 32 ∷ format_capacity drive.capacity)
