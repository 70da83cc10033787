-- ===== src/Network/Messages/RoundTrip.antt =====
-- A message that is packed by one side comes out on the other side as it was.
use cpp_toolkit.Prelude.{
  ℕ, ◌+◌, ◌<◌, ◌^◌, ◌≡◌, refl, ap, ◌∙◌, arith, true, false, some, List, [], ◌∷◌, ◌==◌, nat_eq,
  length, length-append, is_empty,
}
use cpp_toolkit.Utilities.Combiner.{divide}
use cpp_toolkit.Utilities.Combiner.Fields.{
  append_each, append_each-fields, field, length-field, fields, field_sizes, divide_nth,
}
use cpp_toolkit.Utilities.Converter.{to_array, to_string, has_bom}
use cpp_toolkit.Utilities.Converter.Bytes.{to_string-to_array}
use cpp_toolkit.Network.DataHandler.{confirmed, condition_eq}
use cpp_toolkit.Network.Messages.{
  DataModes, mode_code, envelope, hands_over, received_of, receiving_job, binary_body, Session,
  binary_callback, binary_handled, received_binary,
}

to_array_same : (text : List ℕ) → length (to_array text) ≡ length text
unfolding to_array
to_array_same text = refl

-- Fields are not empty, since each has a length.
pub each-not_empty : (f : List ℕ) (fs : List (List ℕ)) → is_empty (append_each [] (f ∷ fs)) ≡ false
each-not_empty f fs =
    go (append_each [] (f ∷ fs))
      (ap length (append_each-fields [] (f ∷ fs)) ∙ length-append (field f) (fields fs))
  where
    go :
        (bytes : List ℕ)
        → length bytes ≡ length (field f) + length (fields fs)
        → is_empty bytes ≡ false
    go [] h = absurd (omega (arith, length-field f))
    go (x ∷ bytes) h = refl

receiving_step :
    (w f g : List ℕ) (i j : ℕ)
    → is_empty w ≡ false
    → divide w 0 ≡ some (f, i)
    → divide w i ≡ some (g, j)
    → receiving_job true w ≡ some (received_of f g)
unfolding receiving_job
receiving_step w f g i j full e e' = rw (full, e, e') refl

-- Data that send has packed for a mode is handed over as it is, with the code of the mode, as long as
-- it is not empty and is shorter than 2 ^ 64 - 17 bytes.
pub receiving_job-envelope :
    (mode : DataModes) (bytes : List ℕ)
    → is_empty bytes ≡ false
    → length bytes + 17 < 2 ^ 64
    → receiving_job true (envelope mode bytes) ≡ some (hands_over (mode_code mode) bytes)
unfolding envelope append_each
receiving_job-envelope mode [] full h = absurd (ground arith)
receiving_job-envelope mode (x ∷ bytes) full h =
    let tag = mode_code mode ∷ [] in
    let room : field_sizes (tag ∷ (x ∷ bytes) ∷ []) < 2 ^ 64 = omega arith in
    receiving_step (envelope mode (x ∷ bytes)) tag (x ∷ bytes) (field_sizes (tag ∷ []))
      (field_sizes (tag ∷ (x ∷ bytes) ∷ [])) (each-not_empty tag ((x ∷ bytes) ∷ []))
      (divide_nth [] tag ((x ∷ bytes) ∷ []) room) (divide_nth (tag ∷ []) (x ∷ bytes) [] room)

binary_step :
    (w f g : List ℕ) (i j : ℕ) (session : Session)
    → (session.reader.condition == confirmed) ≡ true
    → is_empty w ≡ false
    → divide w 0 ≡ some (f, i)
    → divide w i ≡ some (g, j)
    → received_binary w session ≡ some (session, binary_handled session (to_string f) g)
unfolding received_binary
binary_step w f g i j session c full e e' = rw (received_binary, c, full, e, e') refl

-- A confirmed session with a binary callback calls it with the text and the bytes that send_binary has
-- packed: for bytes that are not empty, a text without a byte order mark, and both together
-- shorter than 2 ^ 64 - 16 bytes.
pub received_binary-binary_body :
    (session : Session) (bytes text : List ℕ)
    → (session.reader.condition == confirmed) ≡ true
    → session.received_binary_callback ≡ true
    → is_empty bytes ≡ false
    → has_bom text ≡ false
    → length text + length bytes + 16 < 2 ^ 64
    → received_binary (binary_body bytes text) session ≡ some (session, binary_callback text bytes)
unfolding binary_body append_each
received_binary-binary_body session [] text c set full plain h = absurd (ground arith)
received_binary-binary_body session (x ∷ bytes) text c set full plain h =
    let sent = to_array text in
    let same = (to_string-to_array text).1 plain in
    let room : field_sizes (sent ∷ (x ∷ bytes) ∷ []) < 2 ^ 64 = omega (arith, to_array_same text) in
    binary_step (binary_body (x ∷ bytes) text) sent (x ∷ bytes) (field_sizes (sent ∷ []))
      (field_sizes (sent ∷ (x ∷ bytes) ∷ [])) session c (each-not_empty sent ((x ∷ bytes) ∷ []))
      (divide_nth [] sent ((x ∷ bytes) ∷ []) room) (divide_nth (sent ∷ []) (x ∷ bytes) [] room)
    ∙ ap (λ t. some (session, t)) (rw (same, set) refl)
