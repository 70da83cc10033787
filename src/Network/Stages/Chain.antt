-- ===== src/Network/Stages/Chain.antt =====
-- What the receiver's stages make of the sender's.
use cpp_toolkit.Prelude.{
  ℕ, ◌+◌, ◌<◌, ◌^◌, ◌≡◌, ◌⊎◌, inl, inr, refl, ap, ◌∙◌, Bool, true, false, none, some, List,
  is_empty, length, Bool-cases, ◌==◌, if◌then◌else◌,
}
use cpp_toolkit.Thread.Job.{make_job, make_data_job}
use cpp_toolkit.Network.Messages.{
  DataModes, mode_eq, connection, mode_code, envelope, hands_over, receiving_job,
}
use cpp_toolkit.Network.Messages.RoundTrip.{receiving_job-envelope}
use cpp_toolkit.Network.Stages.{
  Codec, Handler, value_or, compress_job, decompress_job, encrypt_job, decrypt_job, receiving,
}

-- A codec that takes back what it gives for these bytes, or refuses them both ways.
abbrev pub TakesBack : Codec → List ℕ → Type 0
TakesBack codec bytes =
    ((buffer : List ℕ) × (codec.encode bytes ≡ some buffer) × (codec.decode buffer ≡ some bytes))
    ⊎ ((codec.encode bytes ≡ none) × (codec.decode bytes ≡ none))

taken_back :
    (codec : Codec) (bytes : List ℕ)
    → TakesBack codec bytes
    → value_or
        (value_or bytes (codec.encode bytes))
        (codec.decode (value_or bytes (codec.encode bytes)))
      ≡ bytes
taken_back codec bytes (inl (buffer, e, d)) = rw (e, d) refl
taken_back codec bytes (inr (e, d)) = rw (e, d) refl

-- The sender's stages, with or without the encrypt module: what goes on the wire. The receiver's: what
-- ReceivingJob gets of it.
abbrev pub outgoing : Bool → Handler → List ℕ → List ℕ
outgoing true h bytes = (compress_job h (encrypt_job h bytes).data_).data_
outgoing false h bytes = (compress_job h bytes).data_

abbrev pub incoming : Bool → Handler → List ℕ → List ℕ
incoming true h bytes = (decrypt_job h (decompress_job h bytes).data_).data_
incoming false h bytes = (decompress_job h bytes).data_

compressed :
    (h : Handler) (bytes : List ℕ)
    → TakesBack h.compressor bytes
    → (decompress_job h (compress_job h bytes).data_).data_ ≡ bytes
unfolding compress_job decompress_job receiving make_job make_data_job
compressed h bytes c = elim (Bool-cases h.use_encrypt_module) [
  | inl on ↦ rw on (taken_back h.compressor bytes c)
  | inr off ↦ rw off (taken_back h.compressor bytes c)
]

encrypted :
    (h : Handler) (bytes : List ℕ)
    → TakesBack h.encryptor bytes
    → (decrypt_job h (encrypt_job h bytes).data_).data_ ≡ bytes
unfolding encrypt_job decrypt_job receiving make_job make_data_job
encrypted h bytes c = elim (Bool-cases h.encrypt_mode) [
  | inl on ↦ rw on (taken_back h.encryptor bytes c)
  | inr off ↦ rw off refl
]

-- The stages that send starts, by the mode: a message of a connection is not encrypted.
abbrev pub sent_out : Handler → DataModes → List ℕ → List ℕ
sent_out h mode bytes =
    if mode == connection
    then outgoing false h (envelope mode bytes)
    else outgoing h.use_encrypt_module h (envelope mode bytes)

-- A message that send packs, of a mode but Connection, goes through encryption, if the build has it, and
-- compression, and through the receiver's stages back, and ReceivingJob hands it over as it was: where both
-- sides have the same build, mode and codecs, each codec takes back what it gives or refuses both ways,
-- and the message is not empty and shorter than 2 ^ 64 - 17 bytes.
pub stages_hand_over :
    (h : Handler) (mode : DataModes) (bytes : List ℕ)
    → (mode == connection) ≡ false
    → is_empty bytes ≡ false
    → length bytes + 17 < 2 ^ 64
    → TakesBack h.encryptor (envelope mode bytes)
    → TakesBack h.compressor (envelope mode bytes)
    → TakesBack h.compressor (encrypt_job h (envelope mode bytes)).data_
    → receiving_job true (incoming h.use_encrypt_module h (sent_out h mode bytes))
      ≡ some (hands_over (mode_code mode) bytes)
stages_hand_over h mode bytes content full room e c c' =
    rw content (ap (receiving_job true) (back h.use_encrypt_module))
    ∙ receiving_job-envelope mode bytes full room
  where
    back : (b : Bool) → incoming b h (outgoing b h (envelope mode bytes)) ≡ envelope mode bytes
    back true =
        ap (λ x. (decrypt_job h x).data_)
          (compressed h (encrypt_job h (envelope mode bytes)).data_ c')
        ∙ encrypted h (envelope mode bytes) e
    back false = compressed h (envelope mode bytes) c
