-- ===== src/Pipeline/Quoting/Reading.antt =====
-- What a program reads from a command line that the code of src/pipeline/windows.rs writes, by the rules
-- that the documentation of `CommandLineToArgvW` gives for backslashes and quotation marks.
use snapdog_os_installer.Prelude.{
  ℕ, zero, suc, ◌+◌, ◌*◌, ◌≡◌, refl, sym, ap, Bool, true, false, List, [], ◌∷◌, ◌++◌, append_assoc,
  append-nil, ◌==◌, ==_iff, if◌then◌else◌, subst,
}
use snapdog_os_installer.Pipeline.Quoting.{backslashes, quote_from, native_command_line}

-- Behind an opening quotation mark, the units stand for the argument, and the rest follows.
pub data Quoted (rest : List ℕ) : List ℕ → List ℕ → Type 0 where
  closing : (n : ℕ) → Quoted rest (backslashes (n * 2) ++ (b'"' ∷ rest)) (backslashes n)
  mark :
      (n : ℕ) {units argument : List ℕ}
      → Quoted rest units argument
      → Quoted rest (backslashes (n * 2 + 1) ++ (b'"' ∷ units)) (backslashes n ++ (b'"' ∷ argument))
  plain :
      (n c : ℕ) {units argument : List ℕ}
      → (c == b'\\') ≡ false
      → (c == b'"') ≡ false
      → Quoted rest units argument
      → Quoted rest (backslashes n ++ (c ∷ units)) (backslashes n ++ (c ∷ argument))

-- Quoted arguments with one space between them.
pub data CommandLine : List ℕ → List (List ℕ) → Type 0 where
  empty : CommandLine [] []
  last :
      {units argument : List ℕ}
      → Quoted [] units argument
      → CommandLine (b'"' ∷ units) (argument ∷ [])
  next :
      {units rest argument : List ℕ} {arguments : List (List ℕ)}
      → Quoted (b' ' ∷ rest) units argument
      → CommandLine rest arguments
      → CommandLine (b'"' ∷ units) (argument ∷ arguments)

backslashes-suc : (n : ℕ) (cs : List ℕ) → backslashes (suc n) ++ cs ≡ backslashes n ++ (b'\\' ∷ cs)
backslashes-suc zero cs = refl
backslashes-suc (suc n) cs = ap (λ (x : List ℕ). b'\\' ∷ x) (backslashes-suc n cs)

-- One unit, by what holds behind it.
unit-Quoted :
    (n c : ℕ) (cs rest : List ℕ)
    → Quoted rest (quote_from 0 cs ++ rest) cs
    → Quoted rest (quote_from (suc n) cs ++ rest) (backslashes (suc n) ++ cs)
    → Quoted rest (quote_from n (c ∷ cs) ++ rest) (backslashes n ++ (c ∷ cs))
unfolding quote_from
unit-Quoted n c cs rest after more = by_backslash (c == b'\\') refl
  where
    front :
        (bs units argument : List ℕ)
        → Quoted rest (bs ++ (c ∷ (units ++ rest))) argument
        → Quoted rest ((bs ++ (c ∷ units)) ++ rest) argument
    front bs units argument q =
        subst (λ (x : List ℕ). Quoted rest x argument) (sym (append_assoc bs (c ∷ units) rest)) q

    by_mark :
        (b : Bool)
        → (c == b'\\') ≡ false
        → (c == b'"') ≡ b
        → Quoted rest
            ((if b
                then backslashes (n * 2 + 1) ++ (c ∷ quote_from 0 cs)
                else backslashes n ++ (c ∷ quote_from 0 cs))
              ++ rest)
            (backslashes n ++ (c ∷ cs))
    by_mark true p e =
        front (backslashes (n * 2 + 1)) (quote_from 0 cs) (backslashes n ++ (c ∷ cs)) (
          subst
            (λ (x : ℕ).
              Quoted rest (backslashes (n * 2 + 1) ++ (x ∷ (quote_from 0 cs ++ rest)))
                (backslashes n ++ (x ∷ cs)))
            (sym ((==_iff c b'"').0 e)) (mark n after))
    by_mark false p e =
        front (backslashes n) (quote_from 0 cs) (backslashes n ++ (c ∷ cs)) (plain n c p e after)

    by_backslash :
        (b : Bool)
        → (c == b'\\') ≡ b
        → Quoted rest
            ((if b
                then quote_from (suc n) cs
                else if c == b'"'
                then backslashes (n * 2 + 1) ++ (c ∷ quote_from 0 cs)
                else backslashes n ++ (c ∷ quote_from 0 cs))
              ++ rest)
            (backslashes n ++ (c ∷ cs))
    by_backslash true e =
        subst (λ (x : ℕ). Quoted rest (quote_from (suc n) cs ++ rest) (backslashes n ++ (x ∷ cs)))
          (sym ((==_iff c b'\\').0 e))
          (subst (λ (x : List ℕ). Quoted rest (quote_from (suc n) cs ++ rest) x)
            (backslashes-suc n cs) more)
    by_backslash false e = by_mark (c == b'"') e refl

quote_from-Quoted :
    (n : ℕ) (value rest : List ℕ)
    → Quoted rest (quote_from n value ++ rest) (backslashes n ++ value)
unfolding quote_from
quote_from-Quoted n [] rest =
    subst (λ (x : List ℕ). Quoted rest x (backslashes n ++ []))
      (sym (append_assoc (backslashes (n * 2)) (b'"' ∷ []) rest))
      (subst (λ (x : List ℕ). Quoted rest (backslashes (n * 2) ++ (b'"' ∷ rest)) x)
        (sym (append-nil (backslashes n))) (closing n))
quote_from-Quoted n (c ∷ cs) rest =
    unit-Quoted n c cs rest (quote_from-Quoted 0 cs rest) (quote_from-Quoted (suc n) cs rest)

-- Whatever units the arguments have, quotation marks, backslashes and spaces among them: by the
-- documented rules, the command line that is written for them reads as these arguments.
pub native_command_line-CommandLine :
    (arguments : List (List ℕ)) → CommandLine (native_command_line arguments) arguments
unfolding native_command_line
native_command_line-CommandLine [] = empty
native_command_line-CommandLine (argument ∷ []) = last (
    subst (λ (x : List ℕ). Quoted [] x argument) (append-nil (quote_from 0 argument))
      (quote_from-Quoted 0 argument []))
native_command_line-CommandLine (argument ∷ (following ∷ rest)) =
    next (quote_from-Quoted 0 argument (b' ' ∷ native_command_line (following ∷ rest)))
      (native_command_line-CommandLine (following ∷ rest))
