-- ===== src/ConnectHandler/Frame/Cases.antt =====
-- The cases of `interpret_packets` for messages and users under a frame.
use concurrent_server.Base.{refl, List, [], ◌∷◌, ◌==◌, eqb, lt_int, suc}
use concurrent_server.Text.{Bytes, atoi, strcpy}
use concurrent_server.AddrTable.{Addr}
use concurrent_server.Packets.{Packet, text_of, shown}
use concurrent_server.ThreadBlock.{user_to_exit}
use concurrent_server.ConnectHandler.World.{Env, World}
use concurrent_server.ConnectHandler.Messages.{
  is_not_auth, not_yet_authenticated_exit, query_or_log, set_revision_num, send_user, get_all_users,
  deliver, route_message, send_rows, get_messages, waiting_query, received_query,
}
use concurrent_server.ConnectHandler.Account.{mysql_query_buff}
use concurrent_server.ConnectHandler.Loop.{log_out}
use concurrent_server.ConnectHandler.Frame.{
  Frame, Keeps, bind-Keeps, if-Keeps, pure-Keeps, get_block-Keeps, get_packet-Keeps, lift-Keeps,
  rows-Keeps, find_user-Keeps, destroy_packet-Keeps, run_query-Keeps, log_errors-Keeps,
  modify_block-Keeps, send_msg_dontwait-Keeps, set_auth-Keeps, cancel_self-Keeps, enqueue_to-Keeps,
  fault-Keeps,
}

module _ {env : Env} {b : Addr} {R : World env → World env → Type 0} (F : Frame env b R) where
  pub not_yet_authenticated_exit-Keeps :
      (p : Addr) → Keeps env R (not_yet_authenticated_exit env b p)
  unfolding not_yet_authenticated_exit
  not_yet_authenticated_exit-Keeps p = bind-Keeps F (get_block-Keeps F b) (λ blk.
      if-Keeps F (is_not_auth blk.auth)
        (bind-Keeps F (destroy_packet-Keeps F p) (λ _. cancel_self-Keeps F b)) (pure-Keeps F tt))

  pub query_or_log-Keeps : (q : Bytes) → Keeps env R (query_or_log env q)
  unfolding query_or_log
  query_or_log-Keeps q =
      bind-Keeps F (run_query-Keeps F q)
        (λ done. if-Keeps F done (pure-Keeps F tt) (log_errors-Keeps F _))

  deliver-Keeps : (p : Addr) (pk : Packet) → Keeps env R (deliver env b p pk)
  unfolding deliver
  deliver-Keeps p pk = bind-Keeps F (get_block-Keeps F b) (λ blk.
      if-Keeps F (eqb pk.receiver_id blk.userid)
        (bind-Keeps F (lift-Keeps F (shown pk.msg)) (λ msg. send_msg_dontwait-Keeps F _))
        (bind-Keeps F (find_user-Keeps F pk.receiver_id) (λ node.
          if-Keeps F (node == 0)
            (bind-Keeps F (lift-Keeps F (shown pk.msg)) (λ msg w. query_or_log-Keeps _ w))
            (enqueue_to-Keeps F node p))))

  pub route_message-Keeps : (p : Addr) → Keeps env R (route_message env b p)
  unfolding route_message
  route_message-Keeps p =
      bind-Keeps F (not_yet_authenticated_exit-Keeps p)
        (λ _. bind-Keeps F (get_packet-Keeps F p) (λ pk. deliver-Keeps p pk))

  set_revision_num-Keeps : Keeps env R (set_revision_num env b)
  unfolding set_revision_num
  set_revision_num-Keeps =
      bind-Keeps F (query_or_log-Keeps _)
        (λ _. bind-Keeps F (rows-Keeps F) (λ found. modify_block-Keeps F b _ (λ blk. (refl, refl))))

  send_user-Keeps : (found : List (List Bytes)) → Keeps env R (send_user env b found)
  unfolding send_user
  send_user-Keeps [] = fault-Keeps F
  send_user-Keeps ([] ∷ _) = fault-Keeps F
  send_user-Keeps ((_ ∷ []) ∷ _) = fault-Keeps F
  send_user-Keeps ((id ∷ username ∷ _) ∷ _) =
      bind-Keeps F (get_block-Keeps F b) (λ blk. send_msg_dontwait-Keeps F _)

  pub get_all_users-Keeps : (p : Addr) → Keeps env R (get_all_users env b p)
  unfolding get_all_users
  get_all_users-Keeps p = bind-Keeps F (not_yet_authenticated_exit-Keeps p) (λ _.
      bind-Keeps F set_revision_num-Keeps (λ _. bind-Keeps F (get_packet-Keeps F p) (λ pk.
        bind-Keeps F (lift-Keeps F (text_of pk.msg)) (λ msg.
          bind-Keeps F (get_block-Keeps F b) (λ blk.
            if-Keeps F (lt_int (atoi msg) blk.revision_number)
              (bind-Keeps F (query_or_log-Keeps _)
                (λ _. bind-Keeps F (rows-Keeps F) (λ found. send_user-Keeps found)))
              (send_msg_dontwait-Keeps F _))))))

  send_rows-Keeps : (found : List (List Bytes)) → Keeps env R (send_rows env b found)
  unfolding send_rows
  send_rows-Keeps [] = pure-Keeps F tt
  send_rows-Keeps ([] ∷ _) = fault-Keeps F
  send_rows-Keeps ((_ ∷ []) ∷ _) = fault-Keeps F
  send_rows-Keeps ((_ ∷ _ ∷ []) ∷ _) = fault-Keeps F
  send_rows-Keeps ((_ ∷ _ ∷ _ ∷ []) ∷ _) = fault-Keeps F
  send_rows-Keeps ((_ ∷ _ ∷ _ ∷ _ ∷ _) ∷ more) =
      bind-Keeps F (send_msg_dontwait-Keeps F _) (λ _. send_rows-Keeps more)

  pub get_messages-Keeps : (p : Addr) → Keeps env R (get_messages env b p)
  unfolding get_messages
  get_messages-Keeps p = bind-Keeps F (not_yet_authenticated_exit-Keeps p) (λ _.
      bind-Keeps F (get_block-Keeps F b) (λ blk. bind-Keeps F (get_packet-Keeps F p) (λ pk.
        bind-Keeps F
          (if-Keeps F (eqb blk.userid pk.sender_id)
            (bind-Keeps F
              (lift-Keeps F (strcpy (suc mysql_query_buff) (waiting_query env blk.userid)))
              (λ q. bind-Keeps F (query_or_log-Keeps q) (λ _. bind-Keeps F (rows-Keeps F) (λ found.
                bind-Keeps F (send_rows-Keeps found) (λ _ w.
                  bind-Keeps F
                    (lift-Keeps F (
                      strcpy (suc mysql_query_buff) (received_query env (env.now w.db) blk.userid)))
                    (λ q. query_or_log-Keeps q) w)))))
            (pure-Keeps F tt))
          (λ _. destroy_packet-Keeps F p))))

  pub log_out-Keeps : (p : Addr) → Keeps env R (log_out env b p)
  unfolding log_out
  log_out-Keeps p = bind-Keeps F (not_yet_authenticated_exit-Keeps p) (λ _.
      bind-Keeps F (get_block-Keeps F b) (λ blk. bind-Keeps F (get_packet-Keeps F p) (λ pk.
        if-Keeps F (eqb blk.userid pk.sender_id)
          (bind-Keeps F (set_auth-Keeps F b user_to_exit) (λ _. cancel_self-Keeps F b))
          (pure-Keeps F tt))))
