-- ===== src/Child/Shutdown.antt =====
-- The cooperative, then forced shutdown (src/child/graceful.rs).
use subprocess.Prelude.{
  ℕ, Bool, true, false, not, Option, some, none, if◌then◌else◌, Result, ok, err,
}
use subprocess.Errors.{Error, Done}
use subprocess.Graceful.{signal}
use subprocess.Containment.Dispatch.{
  TreeDrain, reports_drain, permits_skipping_sweep, require_contained,
}
use subprocess.Child.{
  Child, ChildSystem, wait, wait_timeout, kill_tree, terminate_tree, drained_within,
  block_until_exit,
}

-- The watch of the tree during the grace: whether the tree has drained, whether the root was seen to
-- exit, and the error of the watch.
pub record Watched (I : Type 0) : Type 0 where
  pub drained : Bool
  pub root_exited : Bool
  pub watch_err : Option (Error I)

-- A refusal of the cooperative signal that the shutdown goes on after.
unfoldable pub is_held : {I : Type 0} → Error I → Bool
is_held (Error.containment detail) = true
is_held (Error.unassessable detail none) = true
is_held (Error.unassessable detail (some source)) = false
is_held (Error.quote e) = false
is_held (Error.io e) = false
is_held (Error.unsupported op platform detail) = false
is_held (Error.no_console detail) = false
is_held (Error.elevation kind detail) = false
is_held (Error.identity_record kind detail source) = false

module _ {S : Type 0} {L : Type 0} {J : Type 0} {I : Type 0} {X : Type 0}
    (sys : ChildSystem S L J I X) (child : Child L J) where
  unfoldable pub terminate : S → Result Done (Error I) × S
  terminate s = signal sys.signals sys.os child.graceful child.id s

  -- `graceful_shutdown` from the answer of its kill on; `watched` is its watch's error.
  unfoldable pub reap_after : Option (Error I) → Result X (Error I) → Result X (Error I)
  reap_after none (ok x) = ok x
  reap_after (some e) (ok x) = err e
  reap_after watched (err e) = err e

  unfoldable pub escalated : Option (Error I) → Result Done I → S → Result X (Error I) × S
  escalated watched (ok done) s =
      let (status, t) = wait sys child s in (reap_after watched status, t)
  escalated watched (err e) s = (err (Error.io e), s)

  unfoldable pub escalate : Option (Error I) → S → Result X (Error I) × S
  escalate watched s = let (answer, t) = sys.kill_proc s in escalated watched answer t

  unfoldable pub graced : Result (Option X) (Error I) → S → Result X (Error I) × S
  graced (ok (some x)) s = (ok x, s)
  graced (ok none) s = escalate none s
  graced (err e) s = escalate (some e) s

  unfoldable pub signalled : ℕ → Result Done (Error I) → S → Result X (Error I) × S
  signalled grace (ok done) s = let (watch, t) = wait_timeout sys child grace s in graced watch t
  signalled grace (err e) s = (err e, s)

  unfoldable pub graceful_shutdown : ℕ → S → Result X (Error I) × S
  graceful_shutdown grace s = let (sent, t) = terminate s in signalled grace sent t

  -- The watch of the whole tree, or of the root alone.
  unfoldable pub seen_root : Result Bool (Error I) → Watched I
  seen_root (ok exited) = record { drained = false; root_exited = exited; watch_err = none }
  seen_root (err e) = record { drained = false; root_exited = false; watch_err = some e }

  unfoldable pub watch_root : ℕ → S → Watched I × S
  watch_root timeout s =
      let (answer, t) = block_until_exit sys child timeout s in (seen_root answer, t)

  unfoldable pub seen_tree : Result TreeDrain (Error I) → S → Watched I × S
  seen_tree (ok verdict) s =
      if permits_skipping_sweep verdict
      then (record { drained = true; root_exited = true; watch_err = none }, s)
      else watch_root 0 s
  seen_tree (err e) s = (record { drained = false; root_exited = false; watch_err = some e }, s)

  unfoldable pub watch_tree : ℕ → S → Watched I × S
  watch_tree grace s =
      if reports_drain child.containment
      then (let (answer, t) = drained_within sys child grace s in seen_tree answer t)
      else watch_root grace s

  -- The reap at the end, and the error of the watch, if any.
  unfoldable pub reap : Option (Error I) → S → Result X (Error I) × S
  reap watch_err s = let (status, t) = wait sys child s in (reap_after watch_err status, t)

  -- A failed sweep still reaps a root that was seen to exit.
  unfoldable pub after_sweep : Watched I → Result Done (Error I) → S → Result X (Error I) × S
  after_sweep w (ok done) s = reap w.watch_err s
  after_sweep w (err e) s = (err e, if w.root_exited then (wait sys child s).1 else s)

  unfoldable pub sweep : Watched I → S → Result X (Error I) × S
  sweep w s =
      if not w.drained
      then (let (answer, t) = kill_tree sys child s in after_sweep w answer t)
      else reap w.watch_err s

  unfoldable pub watch_and_sweep : ℕ → S → Result X (Error I) × S
  watch_and_sweep grace s = let (w, t) = watch_tree grace s in sweep w t

  unfoldable pub tree_signalled : ℕ → Result Done (Error I) → S → Result X (Error I) × S
  tree_signalled grace (ok done) s = watch_and_sweep grace s
  tree_signalled grace (err e) s = if is_held e then watch_and_sweep grace s else (err e, s)

  unfoldable pub terminate_and_sweep : ℕ → S → Result X (Error I) × S
  terminate_and_sweep grace s =
      let (sent, t) = terminate_tree sys child s in tree_signalled grace sent t

  unfoldable pub tree_guarded : ℕ → Result Done (Error I) → S → Result X (Error I) × S
  tree_guarded grace (ok done) s = terminate_and_sweep grace s
  tree_guarded grace (err e) s = (err e, s)

  unfoldable pub graceful_shutdown_tree : ℕ → S → Result X (Error I) × S
  graceful_shutdown_tree grace s = tree_guarded grace (require_contained sys.os child.attached) s
