-- ===== src/Utilities/FolderWatcher.antt =====
-- Utilities/FolderWatcher.cpp over efsw, which is a parameter: a watcher of some state, the ids that it gives,
-- and actions of some kind.
use mathlib.Core.List.{append_assoc}
use cpp_toolkit.Prelude.{◌≡◌, refl, Bool, Option, none, some, List, [], ◌∷◌, ◌++◌}
use cpp_toolkit.Prelude.Int.{ℤ}
use cpp_toolkit.Thread.Job.{Text}

pub record Efsw {ℓ} (Watcher : Type ℓ) : Type ℓ where
  pub fresh : Watcher
  pub add_watch : Text → Bool → Watcher → Watcher × ℤ
  pub remove_watch : ℤ → Watcher → Watcher
  pub watch : Watcher → Watcher

-- `callback` is what handleFileAction is to call, if it is set.
pub record FolderWatcher {ℓ ℓ'} (Watcher : Type ℓ) (Callback : Type ℓ') : Type (ℓ ⊔ ℓ') where
  pub file_watcher : Option Watcher
  pub watch_ids : List ℤ
  pub callback : Option Callback

module _ {ℓ} {Watcher : Type ℓ} (efsw : Efsw Watcher) where
  -- The loop of start.
  unfoldable pub add_watches : List (Text × Bool) → Watcher → Watcher × List ℤ
  add_watches [] watcher = (watcher, [])
  add_watches ((target_folder, target_recursive) ∷ targets) watcher =
      let (watcher', watch_id) = efsw.add_watch target_folder target_recursive watcher in
      let (watcher'', watch_ids) = add_watches targets watcher' in (watcher'', watch_id ∷ watch_ids)

  -- The loop of stop.
  unfoldable pub remove_watches : List ℤ → Watcher → Watcher
  remove_watches [] watcher = watcher
  remove_watches (watch_id ∷ watch_ids) watcher =
      remove_watches watch_ids (efsw.remove_watch watch_id watcher)

module _ {ℓ ℓ'} {Watcher : Type ℓ} {Callback : Type ℓ'} where
  unfoldable pub make_watcher : FolderWatcher Watcher Callback
  make_watcher = record { file_watcher = none; watch_ids = []; callback = none }

  unfoldable pub set_callback :
      Callback → FolderWatcher Watcher Callback → FolderWatcher Watcher Callback
  set_callback callback w = record w { callback = some callback }

  -- handleFileAction, by the call that it makes, if it makes one.
  unfoldable pub handle_file_action {ℓ₁} :
      {Action : Type ℓ₁}
      → Text
      → Text
      → Action
      → Text
      → FolderWatcher Watcher Callback
      → Option (Callback × Text × Text × Action × Text)
  handle_file_action dir filename action old_filename w = elim w.callback [
    | none ↦ none
    | some callback ↦ some (callback, dir, filename, action, old_filename)
  ]

module _ {ℓ ℓ'} {Watcher : Type ℓ} {Callback : Type ℓ'} (efsw : Efsw Watcher) where
  -- stop, with the watcher as it is when it is destroyed.
  unfoldable pub stop :
      FolderWatcher Watcher Callback → FolderWatcher Watcher Callback × Option Watcher
  unfolding remove_watches
  stop w = elim w.file_watcher [
    | none ↦ (w, none)
    | some watcher ↦
        (record w { file_watcher = none }, some (remove_watches efsw w.watch_ids watcher))
  ]

  unfoldable pub start :
      List (Text × Bool) → FolderWatcher Watcher Callback → FolderWatcher Watcher Callback
  unfolding stop add_watches
  start targets w =
      let w' = (stop w).0 in
      let (watcher, watch_ids) = add_watches efsw targets efsw.fresh in
      record w' { file_watcher = some (efsw.watch watcher); watch_ids = w'.watch_ids ++ watch_ids }

  stop_keeps :
      (w : FolderWatcher Watcher Callback)
      → ((stop w).0.watch_ids ≡ w.watch_ids) × ((stop w).0.file_watcher ≡ none)
  unfolding stop
  stop_keeps w = go w.file_watcher refl
    where
      go :
          (o : Option Watcher)
          → w.file_watcher ≡ o
          → ((stop w).0.watch_ids ≡ w.watch_ids) × ((stop w).0.file_watcher ≡ none)
      go none e = rw (stop, e) (refl, e)
      go (some watcher) e = rw (stop, e) (refl, refl)

  -- The ids of a watcher that is gone stay behind: a stop after a second start removes those of the first from
  -- the new watcher, too.
  pub stale_ids :
      (targets targets' : List (Text × Bool)) (w : FolderWatcher Watcher Callback)
      → (start targets' (start targets w)).watch_ids
        ≡ w.watch_ids
          ++ ((add_watches efsw targets efsw.fresh).1 ++ (add_watches efsw targets' efsw.fresh).1)
  unfolding start stop
  stale_ids targets targets' w = rw ((stop_keeps w).0) (append_assoc w.watch_ids _ _)
