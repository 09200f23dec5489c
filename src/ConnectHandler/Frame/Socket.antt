-- ===== src/ConnectHandler/Frame/Socket.antt =====
-- The switch of `interpret_packets`, and the reads of the socket and of the queue, under a frame.
use concurrent_server.Base.{
  ℕ, refl, true, Option, none, some, List, [], ◌∷◌, ◌++◌, ◌==◌, ◌||◌, ◌&&◌, not, eqb, suc,
}
use concurrent_server.Text.{Bytes, codes, strcpy, strtok_r}
use concurrent_server.AddrTable.{Addr}
use concurrent_server.Packets.{
  Packet, text_of, shown, max_packet_size, reg_packet, auth_packet, logout_packet, close_packet,
  get_all_users_packet, msg_packet, get_msg_packet, get_geo_packet, set_geo_packet, geo_packet,
  packet_to_string,
}
use concurrent_server.ThreadBlock.{set_geolocation_info}
use concurrent_server.ConnectHandler.World.{Env, World}
use concurrent_server.ConnectHandler.Account.{colon}
use concurrent_server.ConnectHandler.Location.{
  or_null, log_dropped, answer_self, answer_other, ask_other, get_location, store_words,
  set_location, pass_location,
}
use concurrent_server.ConnectHandler.Loop.{
  dispatch, interpret_packets, read_socket, serve, read_queue,
}
use concurrent_server.ConnectHandler.Frame.{
  Keeps, Whole, bind-Keeps, if-Keeps, pure-Keeps, get_block-Keeps, get_packet-Keeps, lift-Keeps,
  find_user-Keeps, destroy_packet-Keeps, log_errors-Keeps, receive_packet-Keeps, modify_block-Keeps,
  send_msg_dontwait-Keeps, enqueue_to-Keeps, fault-Keeps, option-Keeps,
}
use concurrent_server.ConnectHandler.Frame.Cases.{
  not_yet_authenticated_exit-Keeps, get_all_users-Keeps, route_message-Keeps, get_messages-Keeps,
  log_out-Keeps,
}
use concurrent_server.ConnectHandler.Frame.Accounts.{
  authenticate_user-Keeps, register_new_user-Keeps,
}

module _ {env : Env} {b : Addr} {R : World env → World env → Type 0} (W : Whole env b R) where
  log_dropped-Keeps : (pk : Packet) → Keeps env R (log_dropped env pk)
  unfolding log_dropped
  log_dropped-Keeps pk =
      bind-Keeps W.frame (lift-Keeps W.frame (packet_to_string true (some pk))) (λ mem.
        bind-Keeps W.frame
          (lift-Keeps W.frame
            (strcpy (suc max_packet_size) (codes "This packet was dropped: " ++ or_null mem)))
          (λ str. log_errors-Keeps W.frame str))

  answer_self-Keeps : (pk : Packet) → Keeps env R (answer_self env b pk)
  unfolding answer_self
  answer_self-Keeps pk =
      if-Keeps W.frame (eqb pk.receiver_id pk.sender_id)
        (bind-Keeps W.frame (get_block-Keeps W.frame b) (λ blk. send_msg_dontwait-Keeps W.frame _))
        (pure-Keeps W.frame tt)

  answer_other-Keeps : (pk : Packet) → Keeps env R (answer_other env b pk)
  unfolding answer_other
  answer_other-Keeps pk = bind-Keeps W.frame (get_block-Keeps W.frame b) (λ blk.
      if-Keeps W.frame (eqb blk.userid pk.receiver_id && not (eqb pk.sender_id pk.receiver_id))
        (bind-Keeps W.frame (find_user-Keeps W.frame pk.sender_id) (λ node.
          if-Keeps W.frame (node == 0)
            (bind-Keeps W.frame (log_dropped-Keeps pk) (λ _. send_msg_dontwait-Keeps W.frame _))
            (bind-Keeps W.frame (receive_packet-Keeps W.frame _) (λ pckt.
              if-Keeps W.frame (pckt == 0) (log_dropped-Keeps pk)
                (enqueue_to-Keeps W.frame node pckt)))))
        (pure-Keeps W.frame tt))

  ask_other-Keeps : (p : Addr) (pk : Packet) → Keeps env R (ask_other env b p pk)
  unfolding ask_other
  ask_other-Keeps p pk = bind-Keeps W.frame (get_block-Keeps W.frame b) (λ blk.
      if-Keeps W.frame (eqb blk.userid pk.sender_id && not (eqb pk.sender_id pk.receiver_id))
        (bind-Keeps W.frame (find_user-Keeps W.frame pk.receiver_id) (λ node.
          if-Keeps W.frame (node == 0)
            (bind-Keeps W.frame (destroy_packet-Keeps W.frame p)
              (λ _. send_msg_dontwait-Keeps W.frame _))
            (enqueue_to-Keeps W.frame node p)))
        (pure-Keeps W.frame tt))

  get_location-Keeps : (p : Addr) → Keeps env R (get_location env b p)
  unfolding get_location
  get_location-Keeps p = bind-Keeps W.frame (not_yet_authenticated_exit-Keeps W.frame p) (λ _.
      bind-Keeps W.frame (get_packet-Keeps W.frame p) (λ pk.
        bind-Keeps W.frame (answer_self-Keeps pk)
          (λ _. bind-Keeps W.frame (answer_other-Keeps pk) (λ _. ask_other-Keeps p pk))))

  store_words-Keeps : (msg : Bytes) → Keeps env R (store_words env b msg)
  unfolding store_words set_geolocation_info
  store_words-Keeps msg =
      option-Keeps W.frame (strtok_r colon msg) (fault-Keeps W.frame) (λ (latti, rest).
        option-Keeps W.frame (strtok_r colon rest) (fault-Keeps W.frame)
          (λ (longi, _). modify_block-Keeps W.frame b _ (λ blk. (refl, refl))))

  set_location-Keeps : (p : Addr) → Keeps env R (set_location env b p)
  unfolding set_location
  set_location-Keeps p = bind-Keeps W.frame (not_yet_authenticated_exit-Keeps W.frame p) (λ _.
      bind-Keeps W.frame (get_packet-Keeps W.frame p) (λ pk.
        bind-Keeps W.frame (lift-Keeps W.frame (text_of pk.msg)) (λ msg.
          bind-Keeps W.frame (store_words-Keeps msg) (λ _. destroy_packet-Keeps W.frame p))))

  pass_location-Keeps : (p : Addr) → Keeps env R (pass_location env b p)
  unfolding pass_location
  pass_location-Keeps p = bind-Keeps W.frame (not_yet_authenticated_exit-Keeps W.frame p) (λ _.
      bind-Keeps W.frame (get_packet-Keeps W.frame p) (λ pk.
        bind-Keeps W.frame (lift-Keeps W.frame (shown pk.msg))
          (λ msg. send_msg_dontwait-Keeps W.frame _)))

  dispatch-Keeps : (t : ℕ) (p : Addr) → Keeps env R (dispatch env t b p)
  unfolding dispatch
  dispatch-Keeps t p = if-Keeps W.frame (t == reg_packet) (register_new_user-Keeps W.frame p) (
      if-Keeps W.frame (t == auth_packet) (authenticate_user-Keeps W p) (
        if-Keeps W.frame ((t == logout_packet) || (t == close_packet)) (log_out-Keeps W.frame p) (
          if-Keeps W.frame (t == get_all_users_packet) (get_all_users-Keeps W.frame p) (
            if-Keeps W.frame (t == msg_packet) (route_message-Keeps W.frame p) (
              if-Keeps W.frame (t == get_msg_packet) (get_messages-Keeps W.frame p) (
                if-Keeps W.frame (t == get_geo_packet) (get_location-Keeps p) (
                  if-Keeps W.frame (t == set_geo_packet) (set_location-Keeps p) (
                    if-Keeps W.frame (t == geo_packet) (pass_location-Keeps p)
                      (not_yet_authenticated_exit-Keeps W.frame p)))))))))

  interpret_packets-Keeps : (p : Addr) → Keeps env R (interpret_packets env b p)
  unfolding interpret_packets
  interpret_packets-Keeps p =
      bind-Keeps W.frame (get_packet-Keeps W.frame p) (λ pk. dispatch-Keeps pk.ptype p)

  pub read_socket-Keeps : (input : Option Bytes) → Keeps env R (read_socket env b input)
  unfolding read_socket
  read_socket-Keeps none = pure-Keeps W.frame tt
  read_socket-Keeps (some buff) =
      bind-Keeps W.frame (receive_packet-Keeps W.frame buff) (λ p. interpret_packets-Keeps p)

  serve-Keeps : (ps : List Addr) → Keeps env R (serve env b ps)
  unfolding serve
  serve-Keeps [] = pure-Keeps W.frame tt
  serve-Keeps (p ∷ ps) =
      bind-Keeps W.frame (modify_block-Keeps W.frame b _ (λ blk. (refl, refl))) (λ _.
        if-Keeps W.frame (p == 0) (pure-Keeps W.frame tt)
          (bind-Keeps W.frame (interpret_packets-Keeps p) (λ _. destroy_packet-Keeps W.frame p)))

  pub read_queue-Keeps : Keeps env R (read_queue env b)
  unfolding read_queue
  read_queue-Keeps =
      bind-Keeps W.frame (get_block-Keeps W.frame b) (λ blk. serve-Keeps blk.in_queue)
