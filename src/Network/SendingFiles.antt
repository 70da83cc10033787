-- ===== src/Network/SendingFiles.antt =====
-- DataHandler::send_files of Network/DataHandler.cpp: a message that announces the files, and a
-- FileSendingJob for each.
pub mod Queued
use cpp_toolkit.Prelude.{
  ℕ, suc, Bool, true, false, not, Option, none, some, List, [], ◌∷◌, codes, if◌then◌else◌, ◌==◌,
  length,
}
use cpp_toolkit.Thread.JobPriorities.{low}
use cpp_toolkit.Thread.Job.{Job, Text, Outcome, make_job}
use cpp_toolkit.Thread.ThreadPool.{ThreadPool, push_job}
use cpp_toolkit.Network.DataHandler.{confirmed, condition_eq}
use cpp_toolkit.Network.Messages.{Sender, file, send, start_message, file_information}

-- The job of FileSendingJob's constructor.
unfoldable pub file_job : Text → ℕ → Text × Text → Job
file_job guid index (file_path, message) =
    make_job low (file_information guid index file_path message) (codes "FileSendingJob") true

-- The loop, up to the first job that the pool refuses.
unfoldable pub push_files : Text → ℕ → List (Text × Text) → ThreadPool → ThreadPool × Outcome
push_files guid index [] pool = (pool, (true, none))
push_files guid index (information ∷ file_informations) pool =
    let (pool', outcome, notified) = push_job (some (file_job guid index information)) pool in
    let rest = push_files guid (suc index) file_informations pool' in
    if outcome.0 then rest else (pool', outcome)

-- send_files, under a new guid. `none` is a null thread pool behind a message that was sent.
unfoldable pub send_files : Text → List (Text × Text) → Sender → Option (Sender × Outcome)
unfolding push_files start_message
send_files guid file_informations sender =
    if not (sender.condition == confirmed)
    then some (sender, (false, some (codes "cannot send binary due to connect condition")))
    else (let (sender', outcome) =
          send file (start_message guid (length file_informations)) sender in
        if not outcome.0 then some (sender', outcome) else elim sender'.thread_pool [
          | none ↦ none
          | some pool ↦
              let (pool', pushed) = push_files guid 0 file_informations pool in
              some (record sender' { thread_pool = some pool' }, pushed)
        ])
