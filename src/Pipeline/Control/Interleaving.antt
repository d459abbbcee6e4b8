-- ===== src/Pipeline/Control/Interleaving.antt =====
-- No request is lost, whatever the order of the steps.
use snapdog_os_installer.Prelude.{
  ℕ, ◌≡◌, refl, Bool, true, false, List, [], ◌∷◌, ◌==◌, if◌then◌else◌, inl, inr, ◌⊎◌, subst, sym,
}
use snapdog_os_installer.Pipeline.Control.{
  Flag, cancel, skip, CallerAt, idle, stored, read, finished, Caller, RunnerAt, outside, registered,
  cancel_served, ready, ended, loaded, Shared, System, flag_of, file_of, set_flag, touch,
  caller_step, release, runner_step, Choice, by_runner, by_caller, step, run, at_start,
}

-- The request for `f` is not lost: the runner has still to look at the flag, or has seen it and has
-- still to touch the marker, or the marker is there, or the run is over.
abbrev pub IsHeard : Flag → RunnerAt → Shared → Type 0
IsHeard f outside s = Unit
IsHeard f registered s = Unit
IsHeard cancel (loaded cancel b) s = (b ≡ true) ⊎ (s.cancel_file ≡ true)
IsHeard skip (loaded cancel b) s = Unit
IsHeard cancel cancel_served s = s.cancel_file ≡ true
IsHeard skip cancel_served s = Unit
IsHeard cancel (loaded skip b) s = s.cancel_file ≡ true
IsHeard skip (loaded skip b) s = (b ≡ true) ⊎ (s.skip_file ≡ true)
IsHeard f ready s = file_of f s ≡ true
IsHeard f ended s = Unit

-- What is known of a call, by where it stands.
abbrev pub CallerInv : Flag → CallerAt → RunnerAt → Shared → Type 0
CallerInv f idle r s = Unit
CallerInv f stored r s = flag_of f s ≡ true
CallerInv f (read true) r s = flag_of f s ≡ true
CallerInv f (read false) r s = (flag_of f s ≡ true) × IsHeard f r s
CallerInv f (finished true) r s = (flag_of f s ≡ true) × IsHeard f r s
CallerInv f (finished false) r s = flag_of f s ≡ true

-- Paths are registered exactly between the first step of `register_markers` and the drop.
abbrev pub IsRegistered : RunnerAt → Bool → Type 0
IsRegistered outside m = m ≡ false
IsRegistered ended m = Unit
IsRegistered registered m = m ≡ true
IsRegistered cancel_served m = m ≡ true
IsRegistered ready m = m ≡ true
IsRegistered (loaded f b) m = m ≡ true

pub record Inv (s : System) : Type 0 where
  pub registered : IsRegistered s.runner s.shared.markers
  pub callers : (i : ℕ) → CallerInv (s.callers i).flag (s.callers i).at s.runner s.shared

-- A step of the runner keeps what is known of each call.
runner_IsHeard :
    (f : Flag) (works : Bool) (r : RunnerAt) (s : Shared)
    → flag_of f s ≡ true
    → IsHeard f r s
    → IsHeard f (runner_step works r s).0 (runner_step works r s).1
runner_IsHeard f true outside s e h = tt
runner_IsHeard f false outside s e h = tt
runner_IsHeard cancel works registered s e h = inl e
runner_IsHeard skip works registered s e h = tt
runner_IsHeard cancel true (loaded cancel true) s e h = refl
runner_IsHeard cancel false (loaded cancel true) s e h = tt
runner_IsHeard cancel works (loaded cancel false) s e (inl h) = cc
runner_IsHeard cancel works (loaded cancel false) s e (inr h) = h
runner_IsHeard skip works (loaded cancel false) s e h = tt
runner_IsHeard skip true (loaded cancel true) s e h = tt
runner_IsHeard skip false (loaded cancel true) s e h = tt
runner_IsHeard cancel works cancel_served s e h = h
runner_IsHeard skip works cancel_served s e h = inl e
runner_IsHeard cancel works (loaded skip false) s e h = h
runner_IsHeard cancel true (loaded skip true) s e h = h
runner_IsHeard cancel false (loaded skip true) s e h = tt
runner_IsHeard skip true (loaded skip true) s e h = refl
runner_IsHeard skip false (loaded skip true) s e h = tt
runner_IsHeard skip works (loaded skip false) s e (inl h) = cc
runner_IsHeard skip works (loaded skip false) s e (inr h) = h
runner_IsHeard f works ready s e h = tt
runner_IsHeard f works ended s e h = tt

-- Flags stay set, and marker files stay.
record Grows (s t : Shared) : Type 0 where
  flags : (f : Flag) → flag_of f s ≡ true → flag_of f t ≡ true
  files : (f : Flag) → file_of f s ≡ true → file_of f t ≡ true

touch-Grows : (f : Flag) (works : Bool) (s : Shared) → Grows s (touch f works s)
touch-Grows f false s = record { flags = λ g e. e; files = λ g e. e }
touch-Grows cancel true s = record { flags = flags; files = files }
  where
    flags : (f : Flag) → flag_of f s ≡ true → flag_of f (touch cancel true s) ≡ true
    flags cancel e = e
    flags skip e = e

    files : (f : Flag) → file_of f s ≡ true → file_of f (touch cancel true s) ≡ true
    files cancel e = refl
    files skip e = e
touch-Grows skip true s = record { flags = flags; files = files }
  where
    flags : (f : Flag) → flag_of f s ≡ true → flag_of f (touch skip true s) ≡ true
    flags cancel e = e
    flags skip e = e

    files : (f : Flag) → file_of f s ≡ true → file_of f (touch skip true s) ≡ true
    files cancel e = e
    files skip e = refl

set_flag-Grows : (f : Flag) (s : Shared) → Grows s (set_flag f s)
set_flag-Grows cancel s = record { flags = flags; files = files }
  where
    flags : (f : Flag) → flag_of f s ≡ true → flag_of f (set_flag cancel s) ≡ true
    flags cancel e = refl
    flags skip e = e

    files : (f : Flag) → file_of f s ≡ true → file_of f (set_flag cancel s) ≡ true
    files cancel e = e
    files skip e = e
set_flag-Grows skip s = record { flags = flags; files = files }
  where
    flags : (f : Flag) → flag_of f s ≡ true → flag_of f (set_flag skip s) ≡ true
    flags cancel e = e
    flags skip e = refl

    files : (f : Flag) → file_of f s ≡ true → file_of f (set_flag skip s) ≡ true
    files cancel e = e
    files skip e = e

same-Grows : (s : Shared) → Grows s s
same-Grows s = record { flags = λ f e. e; files = λ f e. e }

caller-Grows :
    (f : Flag) (works : Bool) (at : CallerAt) (s : Shared) → Grows s (caller_step f works at s).1
caller-Grows f works idle s = set_flag-Grows f s
caller-Grows f true stored s = same-Grows s
caller-Grows f false stored s = same-Grows s
caller-Grows f works (read false) s = same-Grows s
caller-Grows f works (read true) s = touch-Grows f works s
caller-Grows f works (finished b) s = same-Grows s

IsHeard-Grows : (f : Flag) (r : RunnerAt) (s t : Shared) → Grows s t → IsHeard f r s → IsHeard f r t
IsHeard-Grows f outside s t g h = tt
IsHeard-Grows f registered s t g h = tt
IsHeard-Grows cancel (loaded cancel b) s t g (inl h) = inl h
IsHeard-Grows cancel (loaded cancel b) s t g (inr h) = inr (g.files cancel h)
IsHeard-Grows skip (loaded cancel b) s t g h = tt
IsHeard-Grows cancel cancel_served s t g h = g.files cancel h
IsHeard-Grows skip cancel_served s t g h = tt
IsHeard-Grows cancel (loaded skip b) s t g h = g.files cancel h
IsHeard-Grows skip (loaded skip b) s t g (inl h) = inl h
IsHeard-Grows skip (loaded skip b) s t g (inr h) = inr (g.files skip h)
IsHeard-Grows f ready s t g h = g.files f h
IsHeard-Grows f ended s t g h = tt

CallerInv-Grows :
    (f : Flag) (at : CallerAt) (r : RunnerAt) (s t : Shared)
    → Grows s t
    → CallerInv f at r s
    → CallerInv f at r t
CallerInv-Grows f idle r s t g h = tt
CallerInv-Grows f stored r s t g h = g.flags f h
CallerInv-Grows f (read true) r s t g h = g.flags f h
CallerInv-Grows f (read false) r s t g h = (g.flags f h.0, IsHeard-Grows f r s t g h.1)
CallerInv-Grows f (finished true) r s t g h = (g.flags f h.0, IsHeard-Grows f r s t g h.1)
CallerInv-Grows f (finished false) r s t g h = g.flags f h

set_markers-Grows : (m : Bool) (s : Shared) → Grows s (record s { markers = m })
set_markers-Grows m s = record { flags = flags; files = files }
  where
    flags : (f : Flag) → flag_of f s ≡ true → flag_of f (record s { markers = m }) ≡ true
    flags cancel e = e
    flags skip e = e

    files : (f : Flag) → file_of f s ≡ true → file_of f (record s { markers = m }) ≡ true
    files cancel e = e
    files skip e = e

release-Grows : (works : Bool) (s : Shared) → Grows s (release works s)
release-Grows false s = same-Grows s
release-Grows true s = set_markers-Grows false s

runner-Grows : (works : Bool) (r : RunnerAt) (s : Shared) → Grows s (runner_step works r s).1
runner-Grows true outside s = set_markers-Grows true s
runner-Grows false outside s = same-Grows s
runner-Grows works registered s = same-Grows s
runner-Grows works cancel_served s = same-Grows s
runner-Grows works (loaded f false) s = same-Grows s
runner-Grows works (loaded f true) s = touch-Grows f works s
runner-Grows works ready s = release-Grows works s
runner-Grows works ended s = release-Grows works s

-- The three kinds of step, for one caller.
by_runner-CallerInv :
    (works : Bool) (f : Flag) (at : CallerAt) (r : RunnerAt) (s : Shared)
    → CallerInv f at r s
    → CallerInv f at (runner_step works r s).0 (runner_step works r s).1
by_runner-CallerInv works f idle r s h = tt
by_runner-CallerInv works f stored r s h = (runner-Grows works r s).flags f h
by_runner-CallerInv works f (read true) r s h = (runner-Grows works r s).flags f h
by_runner-CallerInv works f (read false) r s (e, h) =
    ((runner-Grows works r s).flags f e, runner_IsHeard f works r s e h)
by_runner-CallerInv works f (finished true) r s (e, h) =
    ((runner-Grows works r s).flags f e, runner_IsHeard f works r s e h)
by_runner-CallerInv works f (finished false) r s h = (runner-Grows works r s).flags f h

set_flag_lem : (f : Flag) (s : Shared) → flag_of f (set_flag f s) ≡ true
set_flag_lem cancel s = refl
set_flag_lem skip s = refl

touch_lem : (f : Flag) (s : Shared) → file_of f (touch f true s) ≡ true
touch_lem cancel s = refl
touch_lem skip s = refl

-- A marker that is there answers the request wherever the runner is.
file-IsHeard : (f : Flag) (r : RunnerAt) (s : Shared) → file_of f s ≡ true → IsHeard f r s
file-IsHeard f outside s h = tt
file-IsHeard f registered s h = tt
file-IsHeard cancel (loaded cancel b) s h = inr h
file-IsHeard skip (loaded cancel b) s h = tt
file-IsHeard cancel cancel_served s h = h
file-IsHeard skip cancel_served s h = tt
file-IsHeard cancel (loaded skip b) s h = h
file-IsHeard skip (loaded skip b) s h = inr h
file-IsHeard f ready s h = h
file-IsHeard f ended s h = tt

-- Without registered paths the runner is not past the registration, or the run is over.
unregistered-IsHeard : (f : Flag) (r : RunnerAt) (s : Shared) → IsRegistered r false → IsHeard f r s
unregistered-IsHeard f outside s h = tt
unregistered-IsHeard f registered s h = cc
unregistered-IsHeard f (loaded g b) s h = cc
unregistered-IsHeard f cancel_served s h = cc
unregistered-IsHeard f ready s h = cc
unregistered-IsHeard f ended s h = tt

read-CallerInv :
    (f : Flag) (r : RunnerAt) (s : Shared) (m : Bool)
    → IsRegistered r m
    → flag_of f s ≡ true
    → CallerInv f (read m) r s
read-CallerInv f r s true m h = h
read-CallerInv f r s false m h = (h, unregistered-IsHeard f r s m)

own-CallerInv :
    (f : Flag) (works : Bool) (at : CallerAt) (r : RunnerAt) (s : Shared)
    → IsRegistered r s.markers
    → CallerInv f at r s
    → CallerInv f (caller_step f works at s).0 r (caller_step f works at s).1
own-CallerInv f works idle r s m h = set_flag_lem f s
own-CallerInv f false stored r s m h = h
own-CallerInv f true stored r s m h = read-CallerInv f r s s.markers m h
own-CallerInv f works (read false) r s m h = h
own-CallerInv f false (read true) r s m h = h
own-CallerInv f true (read true) r s m h =
    let h2 : flag_of f (touch f true s) ≡ true = (touch-Grows f true s).flags f h in
    (h2, file-IsHeard f r (touch f true s) (touch_lem f s))
own-CallerInv f works (finished b) r s m h = h

runner-IsRegistered :
    (works : Bool) (r : RunnerAt) (s : Shared)
    → IsRegistered r s.markers
    → IsRegistered (runner_step works r s).0 (runner_step works r s).1.markers
runner-IsRegistered true outside s m = refl
runner-IsRegistered false outside s m = tt
runner-IsRegistered works registered s m = m
runner-IsRegistered works cancel_served s m = m
runner-IsRegistered works (loaded cancel false) s m = m
runner-IsRegistered works (loaded skip false) s m = m
runner-IsRegistered true (loaded cancel true) s m = m
runner-IsRegistered true (loaded skip true) s m = m
runner-IsRegistered false (loaded f true) s m = tt
runner-IsRegistered works ready s m = tt
runner-IsRegistered works ended s m = tt

touch-markers : (f : Flag) (works : Bool) (s : Shared) → (touch f works s).markers ≡ s.markers
touch-markers f false s = refl
touch-markers cancel true s = refl
touch-markers skip true s = refl

set_flag-markers : (f : Flag) (s : Shared) → (set_flag f s).markers ≡ s.markers
set_flag-markers cancel s = refl
set_flag-markers skip s = refl

caller-markers :
    (f : Flag) (works : Bool) (at : CallerAt) (s : Shared)
    → (caller_step f works at s).1.markers ≡ s.markers
caller-markers f works idle s = set_flag-markers f s
caller-markers f true stored s = refl
caller-markers f false stored s = refl
caller-markers f works (read false) s = refl
caller-markers f works (read true) s = touch-markers f works s
caller-markers f works (finished b) s = refl

choose-CallerInv :
    (b : Bool) (c d : Caller) (r : RunnerAt) (t : Shared)
    → CallerInv c.flag c.at r t
    → CallerInv d.flag d.at r t
    → CallerInv (if b then c else d).flag (if b then c else d).at r t
choose-CallerInv true c d r t h k = h
choose-CallerInv false c d r t h k = k

step-Inv : (choice : Choice) (y : System) → Inv y → Inv (step choice y)
unfolding step
step-Inv (by_runner works) y inv = record {
  registered = runner-IsRegistered works y.runner y.shared inv.registered;
  callers = λ i.
      by_runner-CallerInv works (y.callers i).flag (y.callers i).at y.runner y.shared
        (inv.callers i);
}
step-Inv (by_caller i works) y inv =
    let c : Caller = y.callers i in
    let t : Shared = (caller_step c.flag works c.at y.shared).1 in
    let moved : Caller = record {
      flag = c.flag;
      at = (caller_step c.flag works c.at y.shared).0;
    } in
    let own = own-CallerInv c.flag works c.at y.runner y.shared inv.registered (inv.callers i) in
    record {
      registered =
          subst (IsRegistered y.runner) (sym (caller-markers c.flag works c.at y.shared))
            inv.registered;
      callers = λ j. choose-CallerInv (i == j) moved (y.callers j) y.runner t own (
          CallerInv-Grows (y.callers j).flag (y.callers j).at y.runner y.shared t
            (caller-Grows c.flag works c.at y.shared) (inv.callers j));
    }

run-Inv : (schedule : List Choice) (y : System) → Inv y → Inv (run schedule y)
unfolding run
run-Inv [] y inv = inv
run-Inv (choice ∷ rest) y inv = run-Inv rest (step choice y) (step-Inv choice y inv)

at_start-Inv : (flags : ℕ → Flag) → Inv (at_start flags)
at_start-Inv flags = record { registered = refl; callers = λ i. tt }

finished-served :
    (f : Flag) (at : CallerAt) (r : RunnerAt) (s : Shared)
    → CallerInv f at r s
    → at ≡ finished true
    → r ≡ ready
    → file_of f s ≡ true
finished-served f at r s h e k =
    let h1 = subst (λ a. CallerInv f a r s) e h in
    let h2 = subst (λ q. CallerInv f (finished true) q s) k h1 in h2.1

-- From the start and for every interleaving of the steps: if `register_markers` has returned without
-- an error, so that the worker may run, each call of `cancel` or `skip_verification` that has
-- returned without an error has its marker file there, where the worker looks for it.
pub run-markers :
    (flags : ℕ → Flag) (schedule : List Choice) (i : ℕ)
    → ((run schedule (at_start flags)).callers i).at ≡ finished true
    → (run schedule (at_start flags)).runner ≡ ready
    → file_of
        ((run schedule (at_start flags)).callers i).flag
        (run schedule (at_start flags)).shared
      ≡ true
run-markers flags schedule i e k =
    let y : System = run schedule (at_start flags) in
    let inv : Inv y = run-Inv schedule (at_start flags) (at_start-Inv flags) in
    finished-served (y.callers i).flag (y.callers i).at y.runner y.shared (inv.callers i) e k
