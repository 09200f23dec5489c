-- ===== src/Packets/Reading.antt =====
-- What `string_to_packet` reads from the text of a packet.
use concurrent_server.Base.{
  ℕ, ◌≤◌, ◌≡◌, ◌≢◌, refl, ap, ◌∙◌, true, [], ◌∷◌, ◌++◌, take, length, arith, ℤ, to_unsigned, IsInt,
  zero, suc,
}
use concurrent_server.Text.{Bytes, print_int}
use concurrent_server.Text.Decimal.{atoi-print_int, print_int-ne-nil, print_int-Lacks}
use concurrent_server.Text.Tokens.{Lacks, strtok_r-append, strtok_r-skip}
use concurrent_server.Packets.{
  Packet, text, bar, frame, field, store_ptype, store_sender, store_receiver, store_tmsg, store_msg,
  parse_fields, max_data_size,
}

module _ (store : Bytes → Packet → Packet) (np : Packet) where
  -- A text in front of a bar is the next field, if it is not empty and lacks the bar.
  field-text :
      (s : Bytes) (rest : Bytes)
      → s ≢ []
      → Lacks bar s
      → field store (np, s ++ bar ∷ rest) ≡ (store s np, rest)
  unfolding field
  field-text s rest ne h = rw (strtok_r-append bar s rest ne h, field)

  -- So is a number.
  field-print_int :
      (z : ℤ) (rest : Bytes)
      → field store (np, print_int z ++ bar ∷ rest) ≡ (store (print_int z) np, rest)
  field-print_int z rest =
      field-text (print_int z) rest (print_int-ne-nil z) (print_int-Lacks z bar (omega arith))

  field-skip : (s : Bytes) → field store (np, bar ∷ s) ≡ field store (np, s)
  unfolding field
  field-skip s = rw (strtok_r-skip bar s, field)

take-all : (n : ℕ) (s : Bytes) → length s ≤ n → take n s ≡ s
take-all zero [] h = refl
take-all zero (c ∷ s) h = absurd (omega arith)
take-all (suc n) [] h = refl
take-all (suc n) (c ∷ s) h = ap (λ t. c ∷ t) (take-all n s (omega arith))

-- The packet that a frame stands for.
abbrev pub packet_of : ℤ → ℤ → ℤ → ℤ → Bytes → Packet
packet_of a b c d s = record {
  ptype = to_unsigned a;
  sender_id = b;
  receiver_id = c;
  tmsg = d;
  msg = text s;
}

-- The five fields that `string_to_packet` finds in a frame.
abbrev five_fields : ℤ → ℤ → ℤ → ℤ → Bytes → Packet → Packet
five_fields a b c d s np = store_msg true s (
    store_tmsg (print_int d)
      (store_receiver (print_int c) (store_sender (print_int b) (store_ptype (print_int a) np))))

module _ (a b c d : ℤ) (s : Bytes) (np : Packet) (ne : s ≢ []) (h : Lacks bar s) where
  fields-frame : parse_fields true (frame a b c d s) np ≡ five_fields a b c d s np
  unfolding parse_fields frame
  fields-frame =
      ap
        (λ (t : Packet × Bytes).
          (field (store_msg true)
            (field store_tmsg (field store_receiver (field store_sender t)))).0)
        (field-skip store_ptype np _ ∙ field-print_int store_ptype np a _)
      ∙ ap
          (λ (t : Packet × Bytes).
            (field (store_msg true) (field store_tmsg (field store_receiver t))).0)
          (field-print_int store_sender _ b _)
      ∙ ap (λ (t : Packet × Bytes). (field (store_msg true) (field store_tmsg t)).0)
          (field-print_int store_receiver _ c _)
      ∙ ap (λ (t : Packet × Bytes). (field (store_msg true) t).0) (field-print_int store_tmsg _ d _)
      ∙ ap (λ (t : Packet × Bytes). t.0) (field-text (store_msg true) _ s [] ne h)

-- The text of a packet is read back field by field, whatever the memory held before, when the
-- numbers are `int`s and the message is not empty, lacks the bar and has at most 179 bytes.
pub parse_fields-frame :
    (a b c d : ℤ) (s : Bytes) (np : Packet)
    → IsInt a
    → IsInt b
    → IsInt c
    → IsInt d
    → s ≢ []
    → Lacks bar s
    → length s ≤ max_data_size
    → parse_fields true (frame a b c d s) np ≡ packet_of a b c d s
parse_fields-frame a b c d s np ia ib ic id ne h l = fields-frame a b c d s np ne h ∙ λ i. record {
  ptype = to_unsigned (atoi-print_int a ia i);
  sender_id = atoi-print_int b ib i;
  receiver_id = atoi-print_int c ic i;
  tmsg = atoi-print_int d id i;
  msg = text (take-all max_data_size s l i);
}
