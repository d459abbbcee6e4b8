-- ===== src/Prelude/Lines.antt =====
-- `str::lines` and `str::split_whitespace`.
use Prim.Native.Nat.{ℕ, zero, suc}
use mathlib.Core.List.{List, [], ◌∷◌, reverse}
use snapdog_os_installer.Prelude.Tests.{◌==◌, if◌then◌else◌}
use snapdog_os_installer.Prelude.Ascii.{Text}
use snapdog_os_installer.Prelude.Texts.{white_len}

-- A line given backwards, without the carriage return before its end.
abbrev end_line : Text → Text
end_line [] = []
end_line (c ∷ cs) = if c == b'\r' then reverse cs else reverse (c ∷ cs)

-- What follows the last line end is a line, unless it is empty; its carriage return stays.
abbrev last_line : Text → List Text
last_line [] = []
last_line (c ∷ cs) = reverse (c ∷ cs) ∷ []

lines_from : Text → Text → List Text
lines_from line [] = last_line line
lines_from line (c ∷ cs) =
    let others = lines_from [] cs in
    let same = lines_from (c ∷ line) cs in if c == b'\n' then end_line line ∷ others else same

unfoldable pub lines : Text → List Text
unfolding lines_from
lines = lines_from []

abbrev add_word : Text → List Text → List Text
add_word [] words = words
add_word (c ∷ cs) words = reverse (c ∷ cs) ∷ words

-- `skip` bytes of a white space are still to be passed over.
words_from : ℕ → Text → Text → List Text
words_from skip word [] = add_word word []
words_from (suc skip) word (c ∷ cs) = words_from skip word cs
words_from zero word (c ∷ cs) = elim (white_len (c ∷ cs)) [
  | zero ↦ words_from zero (c ∷ word) cs
  | suc skip ↦ add_word word (words_from skip [] cs)
]

unfoldable pub split_whitespace : Text → List Text
unfolding words_from white_len
split_whitespace = words_from 0 []
