-- ===== src/Network/Handshake/Texts.antt =====
-- Texts that the other side reads as they were written.
use cpp_toolkit.Prelude.{◌≡◌, false, Option, some, bytes_eq, is_empty}
use cpp_toolkit.Utilities.Converter.{to_array, to_string, has_bom}
use cpp_toolkit.Thread.Job.{Text}
use cpp_toolkit.Network.DataHandler.{condition_eq}

-- A text that the other side reads as what it was written for.
abbrev pub IsRead {ℓ} : {A : Type ℓ} → (A → Text) → (Text → Option A) → A → Type ℓ
IsRead write read message =
    (read (write message) ≡ some message)
    × (has_bom (write message) ≡ false)
    × (is_empty (write message) ≡ false)

pub reads {ℓ} :
    {A : Type ℓ} (write : A → Text) (read : Text → Option A) (message : A)
    → IsRead write read message
    → read (to_string (to_array (write message))) ≡ some message
unfolding to_array to_string
reads write read message (back, no_bom, there) = rw no_bom back

pub filled : (text : Text) → is_empty text ≡ false → is_empty (to_array text) ≡ false
unfolding to_array
filled text h = h
