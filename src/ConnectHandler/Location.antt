-- ===== src/ConnectHandler/Location.antt =====
-- The cases of `interpret_packets` in connect_handler.c for the places of the users.
use concurrent_server.Base.{
  true, not, ◌&&◌, Option, none, some, ◌∷◌, ◌++◌, ◌==◌, if◌then◌else◌, pos, minus_one, eqb, suc,
  fault,
}
use concurrent_server.Text.{Bytes, codes, strcpy, snprintf, strtok_r}
use concurrent_server.AddrTable.{Addr}
use concurrent_server.Packets.{
  Packet, shown, text_of, frame, type_code, coord_data, geo_packet, max_packet_size,
  packet_to_string,
}
use concurrent_server.ThreadBlock.{Geoloc, set_geolocation_info}
use concurrent_server.ConnectHandler.Account.{colon, ack_msg}
use concurrent_server.ConnectHandler.Messages.{not_yet_authenticated_exit}
use concurrent_server.ConnectHandler.World.{
  Env, Cmd, pure, ◌>>=◌, ◌>>◌, lift, get_block, get_packet, modify_block, destroy_packet,
  send_msg_dontwait, log_errors, find_user, enqueue_to, receive_packet,
}

-- `%s` prints "(null)" for NULL.
abbrev pub or_null : Option Bytes → Bytes
or_null none = codes "(null)"
or_null (some s) = s

module _ (env : Env) where
  -- "%f:%f"
  abbrev pub place : Geoloc env.Float → Bytes
  place loc = env.print_float loc.lattitude ++ (colon ∷ env.print_float loc.longitude)

  -- The warning with the text of a packet that is not sent on; the `malloc` in `packet_to_string` succeeds
  -- here.
  unfoldable pub log_dropped : Packet → Cmd env (Unit {0})
  log_dropped pk = do
    mem ← lift (packet_to_string true (some pk))
    str ← lift (strcpy (suc max_packet_size) (codes "This packet was dropped: " ++ or_null mem))
    log_errors env str

  -- A request for the sender's own place is answered at once.
  unfoldable pub answer_self : Addr → Packet → Cmd env (Unit {0})
  answer_self b pk =
      if eqb pk.receiver_id pk.sender_id
      then (do
        blk ← get_block env b
        send_msg_dontwait env b (
            snprintf max_packet_size (
              frame (pos geo_packet) pk.sender_id pk.receiver_id (type_code coord_data)
                (place blk.loc))))
      else pure tt

  -- A request that came through the queue is answered into the queue of who sent it.
  unfoldable pub answer_other : Addr → Packet → Cmd env (Unit {0})
  answer_other b pk = do
    blk ← get_block env b
    if eqb blk.userid pk.receiver_id && not (eqb pk.sender_id pk.receiver_id)
        then (do
          node ← find_user env pk.sender_id
          if node == 0
              then (do log_dropped pk; send_msg_dontwait env b (ack_msg minus_one))
              else (do
                pckt ← receive_packet env (
                    snprintf max_packet_size (
                      frame (pos geo_packet) pk.receiver_id pk.sender_id (type_code coord_data)
                        (place blk.loc)))
                if pckt == 0 then log_dropped pk else enqueue_to env node pckt))
        else pure tt

  -- A request of the client for another user's place goes to that user's queue.
  unfoldable pub ask_other : Addr → Addr → Packet → Cmd env (Unit {0})
  ask_other b p pk = do
    blk ← get_block env b
    if eqb blk.userid pk.sender_id && not (eqb pk.sender_id pk.receiver_id)
        then (do
          node ← find_user env pk.receiver_id
          if node == 0
              then (do destroy_packet env p; send_msg_dontwait env b (ack_msg minus_one))
              else enqueue_to env node p)
        else pure tt

  unfoldable pub get_location : Addr → Addr → Cmd env (Unit {0})
  get_location b p = do
    not_yet_authenticated_exit env b p
    pk ← get_packet env p
    answer_self b pk
    answer_other b pk
    ask_other b p pk

  -- `strtof` of NULL is a fault.
  unfoldable pub store_words : Addr → Bytes → Cmd env (Unit {0})
  store_words b msg = elim (strtok_r colon msg) [
    | none ↦ (λ _. fault)
    | some (latti, rest) ↦ elim (strtok_r colon rest) [
      | none ↦ (λ _. fault)
      | some (longi, _) ↦
          modify_block env b (λ blk. set_geolocation_info blk (env.strtof longi) (env.strtof latti))
    ]
  ]

  unfoldable pub set_location : Addr → Addr → Cmd env (Unit {0})
  set_location b p = do
    not_yet_authenticated_exit env b p
    pk ← get_packet env p
    msg ← lift (text_of pk.msg)
    store_words b msg
    destroy_packet env p

  unfoldable pub pass_location : Addr → Addr → Cmd env (Unit {0})
  pass_location b p = do
    not_yet_authenticated_exit env b p
    pk ← get_packet env p
    msg ← lift (shown pk.msg)
    send_msg_dontwait env b (
        snprintf max_packet_size
          (frame (pos geo_packet) pk.sender_id pk.receiver_id (type_code coord_data) msg))
