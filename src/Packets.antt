-- ===== src/Packets.antt =====
-- data_structs/packets.h and data_structs/packets.c: the packets and their text form.
-- A pointer to a packet is an `Option`, `none` for NULL; the outcome of each allocation is an
-- argument. `tmsg` is the number of a message type, since `atoi` may store any `int` in it.
pub mod RoundTrip
pub mod Reading
use concurrent_server.Base.{
  ℕ, ◌+◌, ◌-◌, ◌≡◌, refl, Bool, true, false, Option, none, some, [], ◌∷◌, ◌++◌, take, ℤ, pos,
  negsuc, minus_one, to_int, to_unsigned, Outcome, ok, fault, ◌>>=◌, if◌then◌else◌,
}
use concurrent_server.Text.{Bytes, codes, print_int, atoi, strtok_r}

pub data MsgType : Type 0 where
  txt_data file_txt_data doc_text_data ppt_text_data mp3_audio_data mp4_audio_data : MsgType
  mp4_video_data mkv_video_data jpg_pic_data png_pic_data coord_data coord_data_many : MsgType

-- The number of an enumerator.
unfoldable pub type_code : MsgType → ℤ
type_code txt_data = pos 0
type_code file_txt_data = pos 1
type_code doc_text_data = pos 2
type_code ppt_text_data = pos 3
type_code mp3_audio_data = pos 4
type_code mp4_audio_data = pos 5
type_code mp4_video_data = pos 6
type_code mkv_video_data = pos 7
type_code jpg_pic_data = pos 8
type_code png_pic_data = pos 9
type_code coord_data = pos 10
type_code coord_data_many = pos 11

abbrev pub max_packet_size : ℕ
max_packet_size = 200

abbrev pub max_data_size : ℕ
max_data_size = max_packet_size - 21

abbrev pub reg_packet : ℕ
reg_packet = 9

abbrev pub auth_packet : ℕ
auth_packet = 10

abbrev pub users_packet : ℕ
users_packet = 11

abbrev pub get_all_users_packet : ℕ
get_all_users_packet = 12

abbrev pub logout_packet : ℕ
logout_packet = 13

abbrev pub geo_packet : ℕ
geo_packet = 20

abbrev pub get_geo_packet : ℕ
get_geo_packet = 21

abbrev pub set_geo_packet : ℕ
set_geo_packet = 22

abbrev pub msg_packet : ℕ
msg_packet = 30

abbrev pub get_msg_packet : ℕ
get_msg_packet = 32

abbrev pub ack_packet : ℕ
ack_packet = 40

abbrev pub fin_packet : ℕ
fin_packet = 42

abbrev pub close_packet : ℕ
close_packet = 43

-- The pointer `msg`: NULL, a text, or a value that was never written.
pub data Msg : Type 0 where
  null : Msg
  text : Bytes → Msg
  wild : Msg

pub record Packet : Type 0 where
  pub ptype : ℕ
  pub sender_id : ℤ
  pub receiver_id : ℤ
  pub tmsg : ℤ
  pub msg : Msg

-- A read of the text that `msg` points to by `%s`, which prints a null pointer as "(null)".
unfoldable pub shown : Msg → Outcome Bytes
shown null = ok (codes "(null)")
shown (text s) = ok s
shown wild = fault

-- A read of it by `strcpy`, `atoi` or `strtok_r`, which do not accept a null pointer.
unfoldable pub text_of : Msg → Outcome Bytes
text_of null = fault
text_of (text s) = ok s
text_of wild = fault

abbrev pub bar : ℕ
bar = b'|'

-- The format "|%d|%d|%d|%d|%s|", also written out in connect_handler.c.
unfoldable pub frame : ℤ → ℤ → ℤ → ℤ → Bytes → Bytes
frame a b c d s =
    bar
    ∷ (print_int a
        ++ bar
          ∷ (print_int b ++ bar ∷ (print_int c ++ bar ∷ (print_int d ++ bar ∷ (s ++ bar ∷ [])))))

-- `malloc` is whether the allocation succeeds.
pub create_packet : Bool → Option Packet
create_packet true = some (record {
  ptype = 0;
  sender_id = minus_one;
  receiver_id = minus_one;
  tmsg = type_code txt_data;
  msg = null;
})
create_packet false = none

pub set_packet_type : Option Packet → ℕ → Option Packet
set_packet_type none type = none
set_packet_type (some pk) type = some (record pk { ptype = type })

-- The setters return EXIT_SUCCESS, 0, or EXIT_FAILURE, 1.
pub set_packet_send_id : Option Packet → ℤ → Option Packet × ℕ
set_packet_send_id none sender = (none, 1)
set_packet_send_id (some pk) sender = (some (record pk { sender_id = sender }), 0)

pub set_packet_recv_id : Option Packet → ℤ → Option Packet × ℕ
set_packet_recv_id none receiver = (none, 1)
set_packet_recv_id (some pk) receiver = (some (record pk { receiver_id = receiver }), 0)

-- With no packet to hold it the message is freed; the second part is the message still allocated.
pub set_packet_msg : Option Packet → Msg → Option Packet × Msg × ℕ
set_packet_msg none msg = (none, null, 1)
set_packet_msg (some pk) msg = (some (record pk { msg = msg }), msg, 0)

-- `make_message` formats twice, to measure and to fill; `malloc` is whether its allocation succeeds.
unfoldable pub make_message : Bool → Bytes → Option Bytes
make_message malloc s = if malloc then some s else none

unfoldable pub packet_to_string : Bool → Option Packet → Outcome (Option Bytes)
unfolding make_message shown frame
packet_to_string malloc none = ok none
packet_to_string malloc (some pk) = do
  s ← shown pk.msg
  ok (make_message malloc (frame (to_int pk.ptype) pk.sender_id pk.receiver_id pk.tmsg s))

-- What the allocations of `string_to_packet` return. `memory` holds what stands in the new packet
-- before it is written.
pub record Supply : Type 0 where
  pub strdup : Bool
  pub memory : Option Packet
  pub strndup : Bool

-- One call of `strtok_r`, and the store under `if (word != NULL)`. The pair is the packet so far
-- and the text behind the save pointer.
unfoldable pub field : (Bytes → Packet → Packet) → Packet × Bytes → Packet × Bytes
field store (np, rest) = elim (strtok_r bar rest) [
  | none ↦ (np, [])
  | some (word, rest') ↦ (store word np, rest')
]

abbrev pub store_ptype : Bytes → Packet → Packet
store_ptype word np = record np { ptype = to_unsigned (atoi word) }

abbrev pub store_sender : Bytes → Packet → Packet
store_sender word np = record np { sender_id = atoi word }

abbrev pub store_receiver : Bytes → Packet → Packet
store_receiver word np = record np { receiver_id = atoi word }

abbrev pub store_tmsg : Bytes → Packet → Packet
store_tmsg word np = record np { tmsg = atoi word }

-- `strndup` is whether its allocation succeeds.
abbrev pub store_msg : Bool → Bytes → Packet → Packet
store_msg strndup word np = record np {
  msg = if strndup then text (take max_data_size word) else null;
}

unfoldable pub parse_fields : Bool → Bytes → Packet → Packet
parse_fields strndup str np =
    (field (store_msg strndup) (
      field store_tmsg (field store_receiver (field store_sender (field store_ptype (np, str)))))).0

-- A failed `strdup` is not noticed: `strtok_r` then follows a pointer that was never set.
unfoldable pub string_to_packet : Supply → Bytes → Outcome (Option Packet)
unfolding parse_fields field
string_to_packet a str = elim a.memory [
  | none ↦ ok none
  | some np ↦ if a.strdup then ok (some (parse_fields a.strndup str np)) else fault
]
