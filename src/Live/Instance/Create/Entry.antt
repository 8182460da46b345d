-- ===== src/Live/Instance/Create/Entry.antt =====
-- What execute_instance_create does before and after the loop.
use fptcloud_hc_automation_m.Base.{
  String, Bool, true, false, Option, none, some, List, [], ◌∷◌, ◌++◌, ◌≡◌, ◌≢◌, ◌⊎◌, ◌&&◌, length,
}
use Prim.Native.String.{◌++◌ as text_append}
use fptcloud_hc_automation_m.Live.{QueueItem, emit}
use fptcloud_hc_automation_m.Live.Instance.Attempt.{
  Image, Creation, Setting, in_world, attempt_image,
}
use fptcloud_hc_automation_m.Live.Instance.Create.{
  Ending, Created, skipped, locked, raised, caught, ended, selected_round_instances, create_images,
  unlocked,
}
use fptcloud_hc_automation_m.Live.Instance.Create.Laws.{IsCreated}

module _ (c : Setting) (valid ready free : Bool) (labels : List String) (instances : List Image)
    (s : Creation) (item : QueueItem) (runtime : Option QueueItem) where
  -- The images that are selected, and the state under the lock.
  abbrev pub selected : List Image
  selected = selected_round_instances labels instances

  abbrev pub held : Creation
  held = in_world (emit (text_append c.check ":lock") "locked" "") s

  -- How the stage ends. It is skipped, with no command and no error, only where its inputs are not
  -- valid, preflight fails, or the lock is free and no image is selected; it is an error with no
  -- command only where the lock is held; otherwise the loop runs over the images that are selected,
  -- under the lock, and is left with its ending or, where it has none, with its exception.
  pub IsExecuted : Created → Type 0
  IsExecuted (skipped w) =
      (w.given ≡ s.world.given)
      × (w.error_queue ≡ s.world.error_queue)
      × (((valid && ready) ≡ false) ⊎ ((free ≡ true) × (selected ≡ [])))
  IsExecuted (locked w) =
      (w.given ≡ s.world.given)
      × (w.error_queue ≡ s.world.error_queue ++ item ∷ [])
      × ((valid && ready) ≡ true)
      × (free ≡ false)
  IsExecuted raised =
      (runtime ≡ none)
      × ((valid && ready && free) ≡ true)
      × (selected ≢ [])
      × (create_images c.check (attempt_image c) selected held ≡ none)
  IsExecuted (caught q) =
      (runtime ≡ some q)
      × ((valid && ready && free) ≡ true)
      × (selected ≢ [])
      × (create_images c.check (attempt_image c) selected held ≡ none)
  IsExecuted (ended e) =
      ((valid && ready && free) ≡ true)
      × (selected ≢ [])
      × ((d : Ending) × (create_images c.check (attempt_image c) selected held ≡ some d)
          × (e ≡ unlocked c.check d)
          × IsCreated c (length selected) held d)
