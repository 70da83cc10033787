-- ===== src/Utilities/Logger/Order.antt =====
-- What the thread of a logger hands to write_log, and what a console shows of it.
use mathlib.Core.List.{flatten, append_assoc, append-nil}
use cpp_toolkit.Prelude.{
  not, ◌&&◌, ◌≡◌, refl, ◌∙◌, ap, sym, arith, Bool, true, false, Option, some, List, [], ◌∷◌, ◌++◌,
  if◌then◌else◌, ◌==◌, leb,
}
use cpp_toolkit.Utilities.Combiner.{◌>>=◌}
use cpp_toolkit.Utilities.File.{Disk, Text}
use cpp_toolkit.Utilities.Logger.{
  no_log, log_rank, log_eq, Log, Logger, convert_log, write_console, write_log,
}
use cpp_toolkit.Utilities.Logger.Queue.{
  LogQueue, Stamp, start_log, stop_log, Event, writes, wakes, write, round, stop, start, step,
  steps, consoles,
}

-- The logs of the writes, in their order.
abbrev pub written : List Event → List Log
written [] = []
written (writes message ∷ events) = message ∷ written events
written (wakes ∷ events) = written events

append_one : (xs ys : List Log) (x : Log) → (xs ++ (x ∷ [])) ++ ys ≡ xs ++ (x ∷ ys)
append_one xs ys x = append_assoc xs (x ∷ []) ys

write_lem :
    (message : Log) (q : LogQueue)
    → q.thread_stop ≡ false
    → (write message q).0 ≡ record q { messages = q.messages ++ (message ∷ []) }
unfolding write
write_lem message q h = rw h refl

flatten-append : (xs ys : List (List Log)) → flatten (xs ++ ys) ≡ flatten xs ++ flatten ys
unfolding flatten
flatten-append [] ys = refl
flatten-append (x ∷ xs) ys =
    ap (◌++◌ x) (flatten-append xs ys) ∙ sym (append_assoc x (flatten xs) (flatten ys))

-- A round hands over all that waits.
round_all : (q : LogQueue) → flatten (round q).1 ≡ q.messages
unfolding round flatten
round_all q = go q.messages refl
  where
    go : (messages : List Log) → q.messages ≡ messages → flatten (round q).1 ≡ messages
    go [] e = rw e refl
    go (m ∷ messages) e = rw e (ap (◌∷◌ m) (append-nil messages))

round_rest :
    (q : LogQueue)
    → ((round q).0.messages ≡ [])
      × ((round q).0.thread_stop ≡ q.thread_stop)
      × ((round q).0.thread ≡ q.thread)
unfolding round
round_rest q = ground arith

woken :
    (first more : List (List Log)) (left waiting new : List Log)
    → flatten first ≡ waiting
    → flatten more ++ left ≡ new
    → flatten (first ++ more) ++ left ≡ waiting ++ new
woken first more left waiting new e f =
    rw (flatten-append first more, e)
      (append_assoc waiting (flatten more) left ∙ ap (◌++◌ waiting) f)

-- What a run has handed over and what still waits.
pub steps_keep :
    (events : List Event) (q : LogQueue)
    → q.thread_stop ≡ false
    → (flatten (steps events q).1 ++ (steps events q).0.messages ≡ q.messages ++ written events)
      × ((steps events q).0.thread ≡ q.thread)
unfolding steps step flatten
steps_keep [] q h = (sym (append-nil q.messages), refl)
steps_keep (writes message ∷ events) q h =
    let ih = steps_keep events (record q { messages = q.messages ++ (message ∷ []) }) h in
    rw (write_lem message q h) (ih.0 ∙ append_one q.messages (written events) message, ih.1)
steps_keep (wakes ∷ events) q h =
    let left = round_rest q in
    let ih = steps_keep events (round q).0 (left.1 ∙ h) in
    (
      woken (round q).1 (steps events (round q).0).1 (steps events (round q).0).0.messages
          q.messages (written events) (round_all q) (ih.0 ∙ ap (λ m. m ++ written events) left.0),
      ih.1 ∙ left.2,
    )

-- One life of a logger: it is started, things happen, and it is stopped; `lost` is that of the stop.
pub life : Bool → Stamp → Text → List Event → LogQueue → Option (LogQueue × List (List Log))
life lost stamp name events q = start false stamp name q >>= (λ started.
    let (run, handed) = steps events started.0 in
    stop lost stamp run >>= (λ stopped. some (stopped.0, started.1 ++ (handed ++ stopped.1))))

start_lem :
    (stamp : Stamp) (name : Text) (q : LogQueue)
    → q.thread ≡ false
    → start false stamp name q
      ≡ some (
        record q { log_name = name; thread_stop = false; thread = true },
        (start_log stamp ∷ []) ∷ [],
      )
unfolding start
start_lem stamp name q h = rw h refl

abbrev stopped_by : LogQueue → LogQueue
stopped_by q = record q { thread = false; thread_stop = false; messages = [] }

stop_lem :
    (stamp : Stamp) (q : LogQueue)
    → q.thread ≡ true
    → (batches : List (List Log)) × (stop false stamp q ≡ some (stopped_by q, batches))
      × (flatten batches ≡ q.messages ++ (stop_log stamp ∷ []))
unfolding stop flatten
stop_lem stamp q h = go q.messages refl
  where
    go :
        (messages : List Log)
        → q.messages ≡ messages
        → (batches : List (List Log)) × (stop false stamp q ≡ some (stopped_by q, batches))
          × (flatten batches ≡ messages ++ (stop_log stamp ∷ []))
    go [] e = ((stop_log stamp ∷ []) ∷ [], rw (h, stop) (rw e refl), refl)
    go (m ∷ messages) e = (
      (m ∷ messages) ∷ (stop_log stamp ∷ []) ∷ [],
      rw (h, stop) (rw e (rw (e, round) refl)),
      refl,
    )

-- What a console shows of some logs: the texts of those whose type is not above its mode.
pub shown : Logger → List Log → List Text
shown logger [] = []
shown logger (message ∷ messages) =
    if not (logger.console_mode == no_log)
      && leb (log_rank message.log_type) (log_rank logger.console_mode)
    then message.text ∷ shown logger messages
    else shown logger messages

module _ (logger : Logger) where
  shown-append : (xs ys : List Log) → shown logger (xs ++ ys) ≡ shown logger xs ++ shown logger ys
  unfolding shown
  shown-append [] ys = refl
  shown-append (x ∷ xs) ys = ground (arith, shown-append xs ys)

  write_console_lem :
      (messages : List Log)
      → write_console logger (convert_log logger messages).0 ≡ shown logger messages
  unfolding write_console convert_log shown
  write_console_lem [] = ground arith
  write_console_lem (x ∷ xs) = ground (arith, write_console_lem xs)

  write_log_lem :
      (permits : Text → Bool) (log_path backup_path : Text) (batch : List Log) (disk : Disk)
      → (write_log permits logger log_path backup_path batch disk).1 ≡ shown logger batch
  unfolding write_log
  write_log_lem permits log_path backup_path batch disk = write_console_lem batch

  consoles_lem :
      (permits : Text → Bool) (log_path backup_path : Text) (batches : List (List Log))
      (disk : Disk)
      → (consoles permits logger log_path backup_path batches disk).1
        ≡ shown logger (flatten batches)
  unfolding consoles flatten shown
  consoles_lem permits log_path backup_path [] disk = refl
  consoles_lem permits log_path backup_path (batch ∷ batches) disk =
      let after = (write_log permits logger log_path backup_path batch disk).0 in
      rw
        (
          write_log_lem permits log_path backup_path batch disk,
          consoles_lem permits log_path backup_path batches after,
        )
        (sym (shown-append batch (flatten batches)))

-- What is handed over from a start to a stop.
all_handed :
    (first last : List (List Log)) (left old new stop_logs : List Log)
    → flatten first ++ left ≡ old ++ new
    → flatten last ≡ left ++ stop_logs
    → flatten (first ++ last) ≡ old ++ (new ++ stop_logs)
all_handed first last left old new stop_logs e f =
    flatten-append first last
    ∙ ap (◌++◌ (flatten first)) f
    ∙ sym (append_assoc (flatten first) left stop_logs)
    ∙ ap (λ l. l ++ stop_logs) e
    ∙ append_assoc old new stop_logs

-- A logger whose thread is not running, and which is started, used and stopped, the notification of the stop not
-- being lost: the thread hands over the start's log, all logs that were there and that have been written since, in their order, and the stop's
-- log, however the wake-ups cut them into batches; nothing waits afterwards, and the console shows the logs
-- that its mode lets through, in that order.
pub life_keeps :
    (lost : Bool) (stamp : Stamp) (name : Text) (events : List Event) (q : LogQueue)
    (permits : Text → Bool) (log_path backup_path : Text) (disk : Disk)
    → q.thread ≡ false
    → lost ≡ false
    → (left : LogQueue) × (batches : List (List Log)) × (life lost stamp name events q
        ≡ some (left, batches))
      × (flatten batches
          ≡ start_log stamp ∷ q.messages ++ (written events ++ (stop_log stamp ∷ [])))
      × (left.messages ≡ [])
      × (left.thread ≡ false)
      × ((consoles permits q.settings log_path backup_path batches disk).1
          ≡ shown q.settings
              (start_log stamp ∷ q.messages ++ (written events ++ (stop_log stamp ∷ []))))
unfolding life flatten
life_keeps lost stamp name events q permits log_path backup_path disk h on_time =
    let begun : LogQueue = record q { log_name = name; thread_stop = false; thread = true } in
    let run = steps_keep events begun refl in
    let ended = stop_lem stamp (steps events begun).0 run.1 in
    let batches : List (List Log) = (start_log stamp ∷ []) ∷ ((steps events begun).1 ++ ended.0) in
    let all : flatten batches
        ≡ start_log stamp ∷ q.messages ++ (written events ++ (stop_log stamp ∷ [])) =
      ap (◌∷◌ (start_log stamp)) (
        all_handed (steps events begun).1 ended.0 (steps events begun).0.messages q.messages
          (written events) (stop_log stamp ∷ []) run.0 ended.2) in
    (
      stopped_by (steps events begun).0,
      batches,
      rw (on_time, start_lem stamp name q h) (rw ended.1 refl),
      all,
      refl,
      refl,
      consoles_lem q.settings permits log_path backup_path batches disk ∙ ap (shown q.settings) all,
    )
