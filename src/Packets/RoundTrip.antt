-- ===== src/Packets/RoundTrip.antt =====
-- `packet_to_string` and `string_to_packet` undo each other.
use concurrent_server.Base.{
  ◌≤◌, ◌<◌, ◌^◌, ◌≡◌, ◌≢◌, sym, true, some, none, [], length, ok, ◌>>=◌, to_int, to_int-IsInt,
  to_unsigned-to_int, IsInt,
}
use concurrent_server.Text.{Bytes}
use concurrent_server.Text.Tokens.{Lacks}
use concurrent_server.Packets.{
  Packet, text, bar, frame, packet_to_string, string_to_packet, max_data_size,
}
use concurrent_server.Packets.Reading.{parse_fields-frame}

-- A packet that its text form keeps whole.
pub record IsSendable (pk : Packet) (s : Bytes) : Type 0 where
  pub msg : pk.msg ≡ text s
  pub ptype : pk.ptype < 2 ^ 32
  pub sender_id : IsInt pk.sender_id
  pub receiver_id : IsInt pk.receiver_id
  pub tmsg : IsInt pk.tmsg
  pub ne_nil : s ≢ []
  pub lacks : Lacks bar s
  pub short : length s ≤ max_data_size

-- The text that `packet_to_string` gives for a packet with a message.
pub packet_to_string-frame :
    (pk : Packet) (s : Bytes)
    → pk.msg ≡ text s
    → packet_to_string true (some pk)
      ≡ ok (some (frame (to_int pk.ptype) pk.sender_id pk.receiver_id pk.tmsg s))
unfolding packet_to_string
packet_to_string-frame pk s e = rw e

-- A packet whose message is a text that is not empty, has no bar and at most 179 bytes, and whose
-- numbers fit their types, is read back from its text as it was, when no allocation fails; what the
-- memory of the new packet held before does not matter.
pub string_to_packet-packet_to_string :
    (pk : Packet) (s : Bytes) (garbage : Packet)
    → IsSendable pk s
    → (packet_to_string true (some pk) >>= λ str. elim str [
      | none ↦ ok none
      | some t ↦
          string_to_packet (record { strdup = true; memory = some garbage; strndup = true }) t
    ])
      ≡ ok (some pk)
unfolding string_to_packet
string_to_packet-packet_to_string pk s garbage c =
    rw
      (
        packet_to_string-frame pk s c.msg,
        string_to_packet,
        parse_fields-frame (to_int pk.ptype) pk.sender_id pk.receiver_id pk.tmsg s garbage
            (to_int-IsInt pk.ptype c.ptype) c.sender_id c.receiver_id c.tmsg c.ne_nil c.lacks
            c.short,
      )
      (λ i. ok (
        some (record {
          ptype = to_unsigned-to_int pk.ptype c.ptype i;
          sender_id = pk.sender_id;
          receiver_id = pk.receiver_id;
          tmsg = pk.tmsg;
          msg = sym c.msg i;
        })))
