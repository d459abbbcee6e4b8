-- ===== src/Pipeline/Quoting.antt =====
-- `native_command_line` and `quote_native_argument` of src/pipeline/windows.rs, on the 16-bit units of
-- the texts.
pub mod Reading
use snapdog_os_installer.Prelude.{ℕ, zero, suc, ◌+◌, ◌*◌, List, [], ◌∷◌, ◌++◌, ◌==◌, if◌then◌else◌}

-- `iter::repeat_n` of a backslash
abbrev pub backslashes : ℕ → List ℕ
backslashes zero = []
backslashes (suc n) = b'\\' ∷ backslashes n

-- The loop, after as many backslashes as its first argument says, and what follows it.
unfoldable pub quote_from : ℕ → List ℕ → List ℕ
quote_from n [] = backslashes (n * 2) ++ (b'"' ∷ [])
quote_from n (c ∷ cs) =
    let more = quote_from (suc n) cs in
    let after = quote_from 0 cs in
    if c == b'\\'
    then more
    else if c == b'"'
    then backslashes (n * 2 + 1) ++ (c ∷ after)
    else backslashes n ++ (c ∷ after)

unfoldable pub quote_native_argument : List ℕ → List ℕ
unfolding quote_from
quote_native_argument value = b'"' ∷ quote_from 0 value

unfoldable pub native_command_line : List (List ℕ) → List ℕ
unfolding quote_native_argument
native_command_line [] = []
native_command_line (argument ∷ []) = quote_native_argument argument
native_command_line (argument ∷ (next ∷ rest)) =
    quote_native_argument argument ++ (b' ' ∷ native_command_line (next ∷ rest))
