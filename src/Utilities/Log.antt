-- ===== src/Utilities/Log.antt =====
-- Utilities/Log.h and Log.cpp: the texts of a log. What fmt makes of the local date and time, and of the
-- milliseconds since the start time, and how Boost.JSON writes an object of texts, are arguments; so is the
-- conversion of the message, which StringLog does without.
use cpp_toolkit.Prelude.{ℕ, ◌/◌, ◌%◌, Option, none, some, List, [], ◌∷◌, ◌++◌, codes, bytes_eq}
use cpp_toolkit.Utilities.File.{Text}
use cpp_toolkit.Utilities.Logger
use cpp_toolkit.Utilities.Logger.{
  LogTypes, no_log, exception, error, information, debug, sequence, parameter, packet,
}
use cpp_toolkit.Utilities.ArgumentParser.Numbers.{decimal}

-- `since_epoch` is the time of time_point_ in nanoseconds, `local_time` its local date and time to the second,
-- and `stamp` what time_stamp gives, if there is a start_time_flag_.
pub record Log {ℓ} (A : Type ℓ) : Type ℓ where
  pub log_type : LogTypes
  pub since_epoch : ℕ
  pub local_time : Text
  pub stamp : Option Text
  pub log_message : A

-- message_types_.find(log_type_)
unfoldable pub message_type : LogTypes → Option Text
message_type no_log = none
message_type exception = some (codes "EXCEPTION")
message_type error = some (codes "ERROR")
message_type information = some (codes "INFORMATION")
message_type debug = some (codes "DEBUG")
message_type sequence = some (codes "SEQUENCE")
message_type parameter = some (codes "PARAMETER")
message_type packet = some (codes "PACKET")

-- datetime_format_ with its three arguments.
unfoldable pub datetime {ℓ} : {A : Type ℓ} → Log A → Text
unfolding decimal
datetime log =
    log.local_time
    ++ (codes "."
        ++ (decimal 3 (log.since_epoch / 1000000 % 1000)
            ++ decimal 3 (log.since_epoch / 1000 % 1000)))

-- The message with what create_message puts around it, by the name of the type and the stamp.
abbrev pub framed : Text → Text → Option Text → Option Text → Text
framed date message t stamp =
    let result : Text =
      codes "["
      ++ (date ++ elim t [
        | none ↦ codes "]" ++ message
        | some name ↦ codes "][" ++ (name ++ (codes "] " ++ message))
      ]) in
    elim stamp [ none ↦ result | some text ↦ result ++ (codes " " ++ text) ]

module _ {ℓ} {A : Type ℓ} (convert : A → Text) where
  unfoldable pub create_message : Log A → Text
  unfolding datetime message_type
  create_message log =
      framed (datetime log) (convert log.log_message) (message_type log.log_type) log.stamp

  -- The members of the object, in their order.
  unfoldable pub json_message : Log A → List (Text × Text)
  unfolding datetime message_type
  json_message log =
      let message = (codes "message", convert log.log_message) ∷ [] in
      let typed : List (Text × Text) = elim (message_type log.log_type) [
        | none ↦ message
        | some t ↦ (codes "message_type", t) ∷ message
      ] in
      let dated = (codes "datetime", datetime log) ∷ typed in
      elim log.stamp [ none ↦ dated | some stamp ↦ (codes "time_stamp", stamp) ∷ dated ]

  unfoldable pub to_json : (List (Text × Text) → Text) → Log A → Text
  unfolding json_message
  to_json serialize log = serialize (json_message log)

  unfoldable pub to_string : Log A → Text
  unfolding create_message
  to_string log = create_message log ++ codes "\n"

  -- What a logger sees of a log.
  unfoldable pub seen : (List (Text × Text) → Text) → Log A → Logger.Log
  unfolding to_json to_string
  seen serialize log = record {
    log_type = log.log_type;
    json = to_json serialize log;
    text = to_string log;
  }
