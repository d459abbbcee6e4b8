-- ===== src/Worker/Calls.antt =====
-- The calls of src/worker.rs under the monitor: each takes the view of the history one step on.
use snapdog_os_installer.Prelude.{
  ◌≡◌, refl, ap, sym, subst, Bool, true, false, Option, none, some, ◌∷◌,
}
use snapdog_os_installer.Prelude.Result.{Result, ok, err}
use snapdog_os_installer.Prelude.Exec.{
  Exec, Post, Triple, Triple-bind, Triple-raise, Triple-pure, Triple-modify, Triple-if, Triple-post,
  Triple-map_error,
}
use snapdog_os_installer.Flash.Types.{Crypto}
use snapdog_os_installer.Worker.Types.{WorkerJob, WorkerError, WorkerProgress, FilePath}
use snapdog_os_installer.Worker.Trace.{Op, called, Env, World, Marker, History, call, succeeded}
use snapdog_os_installer.Worker.Signals.{
  marker_exists, marker_reply, set_cancelled, set_skip, refresh, check_cancelled, cancelled_now,
  is_cancelled, refresh_and_check,
}
use snapdog_os_installer.Worker.Stage.{emit}
use snapdog_os_installer.Worker.Monitor.{View, step, view, Allowed, AllowedEmit, Safe}

module _ (c : Crypto) (job : WorkerJob) where
  -- The history is safe, and this is its view.
  pub record At (v : View) (w : World) : Type 0 where
    pub safe : Safe c job w.history
    pub seen : view c job w.history ≡ v

  -- The history is safe, and an unmount was tried or not.
  pub record Fault (b : Bool) (w : World) : Type 0 where
    pub safe : Safe c job w.history
    pub tried : (view c job w.history).tried_unmount ≡ b

  pub At-Fault : (v : View) (w : World) → At v w → Fault v.tried_unmount w
  At-Fault v w a = record { safe = a.safe; tried = ap (λ (x : View). x.tried_unmount) a.seen }

  abbrev pub Keeps : {E A : Type 0} → View → Exec World E A → Type 0
  Keeps v m = Triple (At v) m (λ _. At v) (λ _. At v)

  At-note :
      (v : View) (op : Op) (done : Bool) (w : World)
      → Allowed c job v op
      → At v w
      → At (step c job v (called op done)) (record w { history = called op done ∷ w.history })
  At-note v op done w allowed a = record {
    safe = (subst (λ (x : View). Allowed c job x op) (sym a.seen) allowed, a.safe);
    seen = ap (λ (x : View). step c job x (called op done)) a.seen;
  }

  pub call_lem :
      {E A : Type 0} (op : Op) (reply : History → Result E A) (v : View)
      → Allowed c job v op
      → Triple
          (At v)
          (call op reply)
          (λ _. At (step c job v (called op true)))
          (λ _. At (step c job v (called op false)))
  unfolding call
  call_lem {E} {A} op reply v allowed = record { at = λ w a. go w (reply w.history) a }
    where
      go :
          (w : World) (r : Result E A)
          → At v w
          → Post
              (λ _. At (step c job v (called op true)))
              (λ _. At (step c job v (called op false)))
              r
              (record w { history = called op (succeeded r) ∷ w.history })
      go w (ok a) p = At-note v op true w allowed p
      go w (err e) p = At-note v op false w allowed p

  -- A fault in a call of the state `v`.
  pub weaken :
      {E A : Type 0} {m : Exec World E A} {Q : A → World → Type 0} {v v' : View}
      → Triple (At v) m Q (λ _. At v')
      → Triple (At v) m Q (λ _. Fault v'.tried_unmount)
  weaken {v'} t = Triple-post (λ a w q. q) (λ e w q. At-Fault v' w q) t

  pub emit_lem :
      (env : Env) (p : WorkerProgress) (v : View)
      → AllowedEmit c job v p.phase
      → Keeps v (emit env p)
  unfolding emit
  emit_lem env p v allowed =
      Triple-map_error WorkerError.progress (call_lem (Op.emit p) env.emit v allowed)

  marker_lem :
      (op : Op) (marker : History → Marker) (path : Option FilePath) (v : View)
      → Allowed c job v op
      → step c job v (called op true) ≡ v
      → step c job v (called op false) ≡ v
      → Keeps v (marker_exists op marker path)
  unfolding marker_exists
  marker_lem op marker none v allowed e f = Triple-pure false λ w a. a
  marker_lem op marker (some path) v allowed e f =
      Triple-post (λ _ w a. subst (λ (x : View). At x w) e a)
        (λ _ w a. subst (λ (x : View). At x w) f a)
        (call_lem op (λ h. marker_reply (marker h)) v allowed)

  module _ (env : Env) (cancel_path skip_path : Option FilePath) (v : View) where
    pub refresh_lem : Keeps v (refresh env cancel_path skip_path)
    unfolding refresh
    refresh_lem =
        Triple-bind (λ _. At v)
          (marker_lem Op.inspect_cancel env.cancel_marker cancel_path v tt refl refl)
          λ cancel.
            Triple-bind (λ _. At v)
              (Triple-modify (set_cancelled cancel) λ w a. record { safe = a.safe; seen = a.seen })
              λ _.
                Triple-bind (λ _. At v)
                  (marker_lem Op.inspect_skip env.skip_marker skip_path v tt refl refl)
                  λ skip.
                    Triple-modify (set_skip skip) λ w a. record { safe = a.safe; seen = a.seen }

    pub check_lem : Keeps v check_cancelled
    unfolding check_cancelled cancelled_now
    check_lem =
        Triple-bind (λ _. At v) (record { at = λ w a. a })
          λ cancelled.
            Triple-if cancelled (λ _. Triple-raise _ λ w a. a) (λ _. Triple-pure tt λ w a. a)

    pub is_cancelled_lem : Keeps v (is_cancelled env cancel_path skip_path)
    unfolding is_cancelled cancelled_now
    is_cancelled_lem = Triple-bind (λ _. At v) refresh_lem λ _. record { at = λ w a. a }

    pub refresh_and_check_lem : Keeps v (refresh_and_check env cancel_path skip_path)
    unfolding refresh_and_check
    refresh_and_check_lem = Triple-bind (λ _. At v) refresh_lem λ _. check_lem
