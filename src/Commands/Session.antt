-- ===== src/Commands/Session.antt =====
-- core/mri.c: the packet that the handlers share, and the responses that they leave in it.
use mri.Prelude.{ℕ, List, [], ◌∷◌}
use mri.Libc.{c_string}
use mri.Buffer.Core.{Buffer}
use mri.Buffer.Bytes.{write_string}
use mri.Memory.Platform.{Target}
use mri.Packet.Link.{Link, init, data_view, with_data}

-- `g_mri.packet`, and the platform's state.
pub record Session (S : Type 0) : Type 0 where
  pub packet : Link
  pub state : S

-- `GetBuffer()`, with the platform's state
abbrev pub target : {S : Type 0} → Session S → Target S
target s = record { buffer = data_view s.packet; state = s.state }

abbrev pub with_target : {S : Type 0} → Session S → Target S → Session S
with_target s t = record { packet = with_data s.packet t.buffer; state = t.state }

abbrev pub with_buffer : {S : Type 0} → Session S → Buffer → Session S
with_buffer s b = record s { packet = with_data s.packet b }

abbrev pub mri_error_invalid_argument : List ℕ
mri_error_invalid_argument = c_string (b'E' ∷ b'0' ∷ b'1' ∷ [])

abbrev pub mri_error_memory_access_failure : List ℕ
mri_error_memory_access_failure = c_string (b'E' ∷ b'0' ∷ b'3' ∷ [])

abbrev pub mri_error_buffer_overrun : List ℕ
mri_error_buffer_overrun = c_string (b'E' ∷ b'0' ∷ b'4' ∷ [])

-- `packet_start` and `packet_size` are what `Platform_GetPacketBuffer` and
-- `Platform_GetPacketBufferSize` return.
module _ {S : Type 0} (packet_start packet_size : ℕ) where
  -- `InitPacketBuffers`
  abbrev pub init_packet_buffers : Session S → Session S
  init_packet_buffers s = record s { packet = init packet_start packet_size s.packet }

  -- `PrepareStringResponse`
  unfoldable pub prepare_string_response : Session S → List ℕ → Session S
  prepare_string_response s error_string =
      let s' = init_packet_buffers s in
      with_buffer s' (write_string (data_view s'.packet) error_string)
