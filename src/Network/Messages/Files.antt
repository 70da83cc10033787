-- ===== src/Network/Messages/Files.antt =====
-- A file that is read by a FileSendingJob, and what received_file does with its message.
use cpp_toolkit.Prelude.{
  ℕ, ◌+◌, ◌<◌, ◌^◌, ◌≡◌, refl, ap, ◌∙◌, arith, true, false, Option, none, some, List, [], ◌∷◌,
  if◌then◌else◌, ◌==◌, nat_eq, length, is_empty,
}
use cpp_toolkit.Prelude.Bytes.{le_bytes, length-le_bytes, le_value-le_bytes}
use cpp_toolkit.Utilities.Combiner.{divide, ◌>>=◌}
use cpp_toolkit.Utilities.Combiner.Fields.{append_each, field_sizes, divide_nth}
use cpp_toolkit.Utilities.Converter.{to_array, to_string, has_bom}
use cpp_toolkit.Utilities.Converter.Bytes.{to_string-to_array}
use cpp_toolkit.Thread.Job.{Text}
use cpp_toolkit.Network.DataHandler.{confirmed, condition_eq}
use cpp_toolkit.Network.FileManager
use cpp_toolkit.Network.Messages.{
  Session, file_sending_job, sends, file_message, file_information, file_handled, received_file,
  size_of_bytes,
}
use cpp_toolkit.Network.Messages.RoundTrip.{each-not_empty}

-- The fields of the two messages of a FileSendingJob.
abbrev failure_fields : List ℕ → ℕ → List ℕ → List (List ℕ)
failure_fields guid index text = guid ∷ (2 ∷ []) ∷ le_bytes 8 index ∷ text ∷ []

abbrev success_fields : List ℕ → ℕ → List ℕ → List ℕ → List (List ℕ)
success_fields guid index text bytes = guid ∷ (1 ∷ []) ∷ le_bytes 8 index ∷ text ∷ bytes ∷ []

size_of_bytes-le_bytes : (n : ℕ) → n < 2 ^ 64 → size_of_bytes (le_bytes 8 n) ≡ some n
size_of_bytes-le_bytes n h = ground (arith, length-le_bytes 8 n, le_value-le_bytes 8 n h)

module _ (save_temp_path : List ℕ → Option Text) (session : Session) where
  failure_step :
      (w guid index text : List ℕ) (count i j k l : ℕ)
      → (session.reader.condition == confirmed) ≡ true
      → is_empty w ≡ false
      → divide w 0 ≡ some (guid, i)
      → divide w i ≡ some (2 ∷ [], j)
      → divide w j ≡ some (index, k)
      → divide w k ≡ some (text, l)
      → size_of_bytes index ≡ some count
      → received_file save_temp_path w session
        ≡ file_handled save_temp_path (to_string guid) 2 count (to_string text) [] session
  unfolding received_file
  failure_step w guid index text count i j k l c full e1 e2 e3 e4 s =
      rw (c, full, e1, e2, e3, s, e4) refl

  success_step :
      (w guid index text bytes : List ℕ) (count i j k l n : ℕ)
      → (session.reader.condition == confirmed) ≡ true
      → is_empty w ≡ false
      → divide w 0 ≡ some (guid, i)
      → divide w i ≡ some (1 ∷ [], j)
      → divide w j ≡ some (index, k)
      → divide w k ≡ some (text, l)
      → divide w l ≡ some (bytes, n)
      → size_of_bytes index ≡ some count
      → received_file save_temp_path w session
        ≡ file_handled save_temp_path (to_string guid) 1 count (to_string text) bytes session
  unfolding received_file
  success_step w guid index text bytes count i j k l n c full e1 e2 e3 e4 e5 s =
      rw (c, full, e1, e2, e3, s, e4, e5) refl

  received_failure :
      (guid text : List ℕ) (index : ℕ)
      → (session.reader.condition == confirmed) ≡ true
      → index < 2 ^ 64
      → length guid + length text + 41 < 2 ^ 64
      → received_file save_temp_path (append_each [] (failure_fields guid index text)) session
        ≡ file_handled save_temp_path (to_string guid) 2 index (to_string text) [] session
  received_failure guid text index c bound h =
      let two : List ℕ = 2 ∷ [] in
      let number : List ℕ = le_bytes 8 index in
      let room : field_sizes (failure_fields guid index text) < 2 ^ 64 =
        omega (arith, length-le_bytes 8 index) in
      failure_step (append_each [] (failure_fields guid index text)) guid number text index
        (field_sizes (guid ∷ [])) (field_sizes (guid ∷ two ∷ []))
        (field_sizes (guid ∷ two ∷ number ∷ [])) (field_sizes (guid ∷ two ∷ number ∷ text ∷ [])) c
        (each-not_empty guid (two ∷ number ∷ text ∷ []))
        (divide_nth [] guid (two ∷ number ∷ text ∷ []) room)
        (divide_nth (guid ∷ []) two (number ∷ text ∷ []) room)
        (divide_nth (guid ∷ two ∷ []) number (text ∷ []) room)
        (divide_nth (guid ∷ two ∷ number ∷ []) text [] room) (size_of_bytes-le_bytes index bound)

  received_success :
      (guid text bytes : List ℕ) (index : ℕ)
      → (session.reader.condition == confirmed) ≡ true
      → index < 2 ^ 64
      → length guid + length text + length bytes + 49 < 2 ^ 64
      → received_file save_temp_path (append_each [] (success_fields guid index text bytes)) session
        ≡ file_handled save_temp_path (to_string guid) 1 index (to_string text) bytes session
  received_success guid text bytes index c bound h =
      let one : List ℕ = 1 ∷ [] in
      let number : List ℕ = le_bytes 8 index in
      let room : field_sizes (success_fields guid index text bytes) < 2 ^ 64 =
        omega (arith, length-le_bytes 8 index) in
      success_step (append_each [] (success_fields guid index text bytes)) guid number text bytes
        index (field_sizes (guid ∷ [])) (field_sizes (guid ∷ one ∷ []))
        (field_sizes (guid ∷ one ∷ number ∷ [])) (field_sizes (guid ∷ one ∷ number ∷ text ∷ []))
        (field_sizes (guid ∷ one ∷ number ∷ text ∷ bytes ∷ [])) c
        (each-not_empty guid (one ∷ number ∷ text ∷ bytes ∷ []))
        (divide_nth [] guid (one ∷ number ∷ text ∷ bytes ∷ []) room)
        (divide_nth (guid ∷ []) one (number ∷ text ∷ bytes ∷ []) room)
        (divide_nth (guid ∷ one ∷ []) number (text ∷ bytes ∷ []) room)
        (divide_nth (guid ∷ one ∷ number ∷ []) text (bytes ∷ []) room)
        (divide_nth (guid ∷ one ∷ number ∷ text ∷ []) bytes [] room)
        (size_of_bytes-le_bytes index bound)

packs_step :
    (read : Text → Option (List ℕ)) (w guid index path text : List ℕ) (i j k l : ℕ)
    (r : Option (List ℕ))
    → divide w 0 ≡ some (guid, i)
    → divide w i ≡ some (index, j)
    → divide w j ≡ some (path, k)
    → divide w k ≡ some (text, l)
    → read (to_string path) ≡ r
    → file_message read w
      ≡ some (elim r [
        | none ↦ append_each [] (guid ∷ (2 ∷ []) ∷ index ∷ text ∷ [])
        | some bytes ↦ append_each [] (guid ∷ (1 ∷ []) ∷ index ∷ text ∷ bytes ∷ [])
      ])
unfolding file_message append_each
packs_step read w guid index path text i j k l none e1 e2 e3 e4 f =
    rw (file_message, e1, e2, e3, e4, f) refl
packs_step read w guid index path text i j k l (some bytes) e1 e2 e3 e4 f =
    rw (file_message, e1, e2, e3, e4, f) refl

-- The message of a FileSendingJob whose data is file_information.
packs :
    (read : Text → Option (List ℕ)) (guid : Text) (index : ℕ) (path text : Text)
    (r : Option (List ℕ))
    → has_bom path ≡ false
    → length guid + length path + length text + 40 < 2 ^ 64
    → read path ≡ r
    → file_message read (file_information guid index path text)
      ≡ some (elim r [
        | none ↦ append_each [] (failure_fields guid index text)
        | some bytes ↦ append_each [] (success_fields guid index text bytes)
      ])
unfolding file_information append_each to_array
packs read guid index path text r plain h f =
    let number : List ℕ = le_bytes 8 index in
    let room : field_sizes (guid ∷ number ∷ path ∷ text ∷ []) < 2 ^ 64 =
      omega (arith, length-le_bytes 8 index) in
    packs_step read (append_each [] (guid ∷ number ∷ path ∷ text ∷ [])) guid number path text
      (field_sizes (guid ∷ [])) (field_sizes (guid ∷ number ∷ []))
      (field_sizes (guid ∷ number ∷ path ∷ [])) (field_sizes (guid ∷ number ∷ path ∷ text ∷ [])) r
      (divide_nth [] guid (number ∷ path ∷ text ∷ []) room)
      (divide_nth (guid ∷ []) number (path ∷ text ∷ []) room)
      (divide_nth (guid ∷ number ∷ []) path (text ∷ []) room)
      (divide_nth (guid ∷ number ∷ path ∷ []) text [] room)
      (ap read ((to_string-to_array path).1 plain) ∙ f)

information_full :
    (guid : Text) (index : ℕ) (path text : Text)
    → is_empty (file_information guid index path text) ≡ false
unfolding file_information append_each to_array
information_full guid index path text = each-not_empty guid (le_bytes 8 index ∷ path ∷ text ∷ [])

-- The job once its data are packed.
job_sends :
    (read : Text → Option (List ℕ)) (guid : Text) (index : ℕ) (path text : Text) (w : List ℕ)
    → file_message read (file_information guid index path text) ≡ some w
    → file_sending_job true read (file_information guid index path text) ≡ some (sends w)
unfolding file_sending_job
job_sends read guid index path text w e =
    rw (file_sending_job, information_full guid index path text, e) refl

-- file_handled by its branches.
handled_success :
    (save_temp_path : List ℕ → Option Text) (session : Session) (guid text bytes path : List ℕ)
    (count : ℕ)
    → save_temp_path bytes ≡ some path
    → file_handled save_temp_path guid 1 count text bytes session ≡ (
        FileManager.success guid text path session.file_manager >>= λ r. some (
          record session { file_manager = r.0 },
          r.1,
          (if session.received_file_callback then some (text, path) else none),
        ))
unfolding file_handled
handled_success save_temp_path session guid text bytes path count e = rw (file_handled, e) refl

handled_failure :
    (save_temp_path : List ℕ → Option Text) (session : Session) (guid text : List ℕ) (count : ℕ)
    → file_handled save_temp_path guid 2 count text [] session ≡ (
        FileManager.failure guid text session.file_manager >>= λ r.
        some (record session { file_manager = r.0 }, r.1, none))
unfolding file_handled
handled_failure save_temp_path session guid text count = refl

-- A file that can be read arrives: the sending job returns a message, and received_file, on a confirmed
-- session that can save the file, reports success to the file manager with the same guid and text
-- and the path of the saved bytes. The texts have no byte order mark, `index` is a size_t and
-- guid, path, text and bytes have together, with 49 bytes for the fields around them, fewer than 2 ^ 64.
pub file_arrives :
    (read save_temp_path : List ℕ → Option (List ℕ)) (session : Session)
    → (guid : Text) (index : ℕ) (path text : Text) (bytes saved : List ℕ) → read path ≡ some bytes
    → save_temp_path bytes ≡ some saved
    → (session.reader.condition == confirmed) ≡ true
    → (has_bom guid ≡ false) × (has_bom path ≡ false) × (has_bom text ≡ false)
    → index < 2 ^ 64
    → length guid + length path + length text + length bytes + 49 < 2 ^ 64
    → (w : List ℕ) × (file_sending_job true read (file_information guid index path text)
        ≡ some (sends w))
      × (received_file save_temp_path w session ≡ (
          FileManager.success guid text saved session.file_manager >>= λ r. some (
            record session { file_manager = r.0 },
            r.1,
            (if session.received_file_callback then some (text, saved) else none),
          )))
unfolding to_array
file_arrives read save_temp_path session guid index path text bytes saved f e c plain bound h = (
  append_each [] (success_fields guid index text bytes),
  job_sends read guid index path text (append_each [] (success_fields guid index text bytes))
      (packs read guid index path text (some bytes) plain.1 (omega arith) f),
  received_success save_temp_path session guid text bytes index c bound (omega arith)
      ∙ rw ((to_string-to_array guid).1 plain.0, (to_string-to_array text).1 plain.2)
          (handled_success save_temp_path session guid text bytes saved index e),
)

-- A file that cannot be read is reported: the sending job still returns a message, and received_file,
-- on a confirmed session, reports a failure to the file manager with the same guid and text. The
-- texts have no byte order mark, `index` is a size_t and the texts are shorter than 2 ^ 64 bytes.
pub file_fails :
    (read save_temp_path : List ℕ → Option (List ℕ)) (session : Session)
    → (guid : Text) (index : ℕ) (path text : Text) → read path ≡ none
    → (session.reader.condition == confirmed) ≡ true
    → (has_bom guid ≡ false) × (has_bom path ≡ false) × (has_bom text ≡ false)
    → index < 2 ^ 64
    → length guid + length path + length text + 41 < 2 ^ 64
    → (w : List ℕ) × (file_sending_job true read (file_information guid index path text)
        ≡ some (sends w))
      × (received_file save_temp_path w session ≡ (
          FileManager.failure guid text session.file_manager >>= λ r.
          some (record session { file_manager = r.0 }, r.1, none)))
unfolding to_array
file_fails read save_temp_path session guid index path text f c plain bound h = (
  append_each [] (failure_fields guid index text),
  job_sends read guid index path text (append_each [] (failure_fields guid index text))
      (packs read guid index path text none plain.1 (omega arith) f),
  received_failure save_temp_path session guid text index c bound (omega arith)
      ∙ rw ((to_string-to_array guid).1 plain.0, (to_string-to_array text).1 plain.2)
          (handled_failure save_temp_path session guid text index),
)
