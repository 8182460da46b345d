-- ===== src/Live/Lock.antt =====
-- ResourceLock (src/healthcheck/terraform_executor.py): a file that exists while the lock of its
-- path is held. The checks that use it are steps over the files and over those who hold a lock.
pub mod Laws
mod Tests
use fptcloud_hc_automation_m.Base.{
  String, Bool, true, false, not, ◌&&◌, Option, none, some, List, [], ◌∷◌, ◌==◌, ◌≡◌, if◌then◌else◌,
  mem, keep, remove,
}

-- __enter__: the file is created if it does not exist; `none` is the RuntimeError.
pub enter : String → List String → Option (List String)
enter path files = if mem path files then none else some (path ∷ files)

-- __exit__, which unlinks the file only if the lock was acquired.
pub exit : Bool → String → List String → List String
exit acquired path files = if acquired then keep (λ f. not (f == path)) files else files

-- The lock files, and the paths that are held: a path is listed once for each holder.
pub record Locks : Type 0 where
  pub files : List String
  pub holders : List String

-- A process takes a lock, is refused and leaves, or leaves after it has taken it.
pub data Step (s : Locks) : Locks → Type 0 where
  acquired :
      (path : String) (files : List String)
      → enter path s.files ≡ some files
      → Step s (record { files = files; holders = path ∷ s.holders })
  refused :
      (path : String)
      → enter path s.files ≡ none
      → Step s (record { files = exit false path s.files; holders = s.holders })
  released :
      (path : String)
      → mem path s.holders ≡ true
      → Step s (record { files = exit true path s.files; holders = remove path s.holders })

-- What can come about from no lock at all.
pub data Reachable : Locks → Type 0 where
  start : Reachable (record { files = []; holders = [] })
  next : {s t : Locks} → Reachable s → Step s t → Reachable t
