-- ===== src/F123/Buffer.antt =====
-- The packet buffer of formulatel/f123/f123.go: a header that is read once, and a body.
use formulatel.Common.{ℕ, List, Option, none, some}
use formulatel.Wire.{Layout, ReadError, ReadResult, binary_read}
use formulatel.F123.Model.Header.{PacketHeader, packet_header_layout, get_packet_header}

-- `F123PacketBuffer`: the unread bytes, and the header once it was read.
pub record PacketBuffer : Type 0 where
  pub unread : List ℕ
  pub header : Option PacketHeader

pub data BufferError : Type 0 where
  read_failed : ReadError → BufferError
  header_not_read : BufferError

-- What a Go function of result type `(*T, error)` returns.
pub record Returned (A : Type 0) : Type 0 where
  pub value : Option A
  pub error : Option BufferError

unfoldable pub new_packet_buffer : List ℕ → PacketBuffer
new_packet_buffer packet = record { unread = packet; header = none }

fill_header : PacketBuffer → ReadResult PacketHeader → Returned PacketHeader × PacketBuffer
fill_header b r = elim r.error [
  | some e ↦ (record { value = none; error = some (read_failed e) }, record b { unread = r.rest })
  | none ↦ (
    record { value = some r.value; error = none },
    record { unread = r.rest; header = some r.value },
  )
]

unfoldable pub unpack_header : PacketBuffer → Returned PacketHeader × PacketBuffer
unfolding fill_header binary_read get_packet_header
unpack_header b = elim b.header [
  | some h ↦ (record { value = some h; error = none }, b)
  | none ↦ fill_header b (binary_read packet_header_layout b.unread)
]

fill_body : {A : Type 0} → PacketBuffer → ReadResult A → Returned A × PacketBuffer
fill_body b r = elim r.error [
  | some e ↦
      (record { value = some r.value; error = some (read_failed e) }, record b { unread = r.rest })
  | none ↦ (record { value = some r.value; error = none }, record b { unread = r.rest })
]

-- A body that could not be read comes back as the zero value beside the error.
unfoldable pub unpack_body : {A : Type 0} → Layout A → PacketBuffer → Returned A × PacketBuffer
unfolding fill_body binary_read
unpack_body l b = elim b.header [
  | none ↦ (record { value = none; error = some header_not_read }, b)
  | some _ ↦ fill_body b (binary_read l b.unread)
]
