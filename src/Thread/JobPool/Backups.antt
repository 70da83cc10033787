-- ===== src/Thread/JobPool/Backups.antt =====
-- uncompleted_jobs of ThreadPool/JobPool.cpp and ThreadPool.cpp: the files of a backup folder are read and
-- removed. A folder is the list of its entries; `opens` and `removes` tell what the system does.
use cpp_toolkit.Prelude.{
  ℕ, ◌≡◌, refl, ◌∙◌, ap, Bool, true, false, not, ◌&&◌, ◌||◌, Option, none, some, List, [], ◌∷◌, All,
  codes, if◌then◌else◌, ◌==◌, bytes_eq, Bool-cases, inl, inr, Option-cases,
}
use cpp_toolkit.Prelude.Map.{find, erase, find-erase}
use cpp_toolkit.Thread.JobPriorities.{JobPriorities, top, high, normal, low}
use cpp_toolkit.Thread.Job.{Files, Text}
use cpp_toolkit.Thread.JobPool.{JobPool}

pub record Entry : Type 0 where
  pub path : Text
  pub regular : Bool
  pub extension : Text

-- backup_extensions_, as the constructor fills it.
unfoldable pub backup_extensions : List (Text × JobPriorities)
backup_extensions =
    (codes ".top", top)
    ∷ (codes ".high", high)
    ∷ (codes ".normal", normal)
    ∷ (codes ".low", low)
    ∷ []

unfoldable pub is_backup : Entry → Bool
unfolding backup_extensions find
is_backup entry =
    entry.regular
    && elim (find entry.extension backup_extensions) [ none ↦ false | some priority ↦ true ]

-- The loop of uncompleted_jobs.
unfoldable pub take_backups :
    (Text → Bool) → (Text → Bool) → List Entry → Files → Files × List (List ℕ)
unfolding is_backup find erase
take_backups opens removes [] files = (files, [])
take_backups opens removes (entry ∷ entries) files =
    let source_data = if opens entry.path then find entry.path files else none in
    let left = if is_backup entry && removes entry.path then erase entry.path files else files in
    let (files', result) = take_backups opens removes entries left in
    if not (is_backup entry)
    then (files', result)
    else elim source_data [ none ↦ (files', result) | some bytes ↦ (files', bytes ∷ result) ]

-- JobPool::uncompleted_jobs: `none` is a path that leads to no folder.
unfoldable pub uncompleted_jobs :
    (Text → Bool) → (Text → Bool) → Option (List Entry) → Files → Files × List (List ℕ)
unfolding take_backups
uncompleted_jobs opens removes none files = (files, [])
uncompleted_jobs opens removes (some entries) files = take_backups opens removes entries files

-- ThreadPool::uncompleted_jobs, by its job_pool_.
unfoldable pub pool_uncompleted_jobs :
    Option JobPool
    → (Text → Bool)
    → (Text → Bool)
    → Option (List Entry)
    → Files
    → Files × List (List ℕ)
unfolding uncompleted_jobs
pool_uncompleted_jobs none opens removes folder files = (files, [])
pool_uncompleted_jobs (some jobs) opens removes folder files =
    uncompleted_jobs opens removes folder files

-- The contents of the backups that are there.
pub contents : List Entry → Files → List (List ℕ)
contents [] files = []
contents (entry ∷ entries) files =
    if is_backup entry
    then elim (find entry.path files) [
      | none ↦ contents entries files
      | some bytes ↦ bytes ∷ contents entries files
    ]
    else contents entries files

-- The path is that of a backup.
pub is_backup_path : Text → List Entry → Bool
is_backup_path path [] = false
is_backup_path path (entry ∷ entries) =
    (is_backup entry && (entry.path == path)) || is_backup_path path entries

-- No two entries have the same path.
abbrev pub Distinct : List Entry → Type 0
Distinct [] = Unit {0}
Distinct (entry ∷ entries) =
    All (λ other. (entry.path == other.path) ≡ false) entries × Distinct entries

contents-erase :
    (path : Text) (entries : List Entry) (files : Files)
    → All (λ other. (path == other.path) ≡ false) entries
    → contents entries (erase path files) ≡ contents entries files
unfolding contents
contents-erase path [] files h = refl
contents-erase path (entry ∷ entries) files (h, hs) =
    rw (find-erase path entry.path files, h)
      (ap
        (λ rest.
          if is_backup entry
          then elim (find entry.path files) [ none ↦ rest | some bytes ↦ bytes ∷ rest ]
          else rest)
        (contents-erase path entries files hs))

-- Everything opens and is removed.
abbrev pub always : Text → Bool
always path = true

taken :
    (entries : List Entry) (files : Files)
    → Distinct entries
    → (take_backups always always entries files).1 ≡ contents entries files
unfolding take_backups contents
taken [] files h = refl
taken (entry ∷ entries) files (h, hs) = elim (Bool-cases (is_backup entry)) [
  | inr other ↦ rw other (taken entries files hs)
  | inl backup ↦ elim (Option-cases (find entry.path files)) [
    | inl missing ↦
        rw (backup, missing, backup)
          (taken entries (erase entry.path files) hs ∙ contents-erase entry.path entries files h)
    | inr (bytes, there) ↦
        rw (backup, there, backup)
          (ap (λ rest. bytes ∷ rest)
            (taken entries (erase entry.path files) hs ∙ contents-erase entry.path entries files h))
  ]
]

lost_once :
    (a b : Bool) (found : Option (List ℕ))
    → (if b then none else (if a then none else found)) ≡ (if a || b then none else found)
lost_once true true found = refl
lost_once true false found = refl
lost_once false true found = refl
lost_once false false found = refl

left_behind :
    (path : Text) (entries : List Entry) (files : Files)
    → find path (take_backups always always entries files).0
      ≡ (if is_backup_path path entries then none else find path files)
unfolding take_backups is_backup_path
left_behind path [] files = refl
left_behind path (entry ∷ entries) files = elim (Bool-cases (is_backup entry)) [
  | inr other ↦ rw other (left_behind path entries files)
  | inl backup ↦ elim (Option-cases (find entry.path files)) [
    | inl missing ↦
        rw (backup, missing, backup)
          (left_behind path entries (erase entry.path files)
            ∙ rw (find-erase entry.path path files)
                (lost_once (entry.path == path) (is_backup_path path entries) (find path files)))
    | inr (bytes, there) ↦
        rw (backup, there, backup)
          (left_behind path entries (erase entry.path files)
            ∙ rw (find-erase entry.path path files)
                (lost_once (entry.path == path) (is_backup_path path entries) (find path files)))
  ]
]

-- Where every backup opens and can be removed and no two entries have the same path, a pool's
-- uncompleted_jobs gives the contents of the backups, in the order of the folder, and takes their files away
-- and no others.
pub backups_taken :
    (jobs : JobPool) (entries : List Entry) (files : Files)
    → Distinct entries
    → ((pool_uncompleted_jobs (some jobs) always always (some entries) files).1
        ≡ contents entries files)
      × ((path : Text)
          → find path (pool_uncompleted_jobs (some jobs) always always (some entries) files).0
            ≡ (if is_backup_path path entries then none else find path files))
unfolding pool_uncompleted_jobs
backups_taken jobs entries files h = (taken entries files h, λ path. left_behind path entries files)
