-- ===== src/ConnectHandler/Messages.antt =====
-- The cases of `interpret_packets` in connect_handler.c for messages and for the list of users, and
-- `set_revision_num` of data_structs/thread_info_block.c.
use concurrent_server.Base.{
  suc, Bool, true, false, List, [], ◌∷◌, ◌++◌, length, replicate, ◌==◌, if◌then◌else◌, ℤ, pos, inc,
  eqb, lt_int, fault,
}
use concurrent_server.Text.{Bytes, codes, atoi, strcpy, snprintf, print_int}
use concurrent_server.AddrTable.{Addr}
use concurrent_server.Packets.{
  Packet, shown, text_of, frame, bar, type_code, coord_data, msg_packet, users_packet, fin_packet,
  max_packet_size,
}
use concurrent_server.ThreadBlock.{UserAuthLevel, user_not_auth}
use concurrent_server.ConnectHandler.Account.{mysql_query_buff, colon}
use concurrent_server.ConnectHandler.World.{
  Env, Cmd, pure, and_then, ◌>>=◌, ◌>>◌, lift, get_block, get_packet, modify_block, destroy_packet,
  send_msg_dontwait, run_query, rows, log_errors, cancel_self, find_user, enqueue_to,
}

abbrev pub is_not_auth : UserAuthLevel → Bool
is_not_auth user_not_auth = true
is_not_auth _ = false

-- "|30|%s|%s|%s|%s|" with the columns of a row.
abbrev pub stored_msg : Bytes → Bytes → Bytes → Bytes → Bytes
stored_msg sender receiver type msg =
    bar
    ∷ (print_int (pos msg_packet)
        ++ bar ∷ (sender ++ bar ∷ (receiver ++ bar ∷ (type ++ bar ∷ (msg ++ bar ∷ [])))))

module _ (env : Env) where
  -- It cancels the thread and returns: the cancellation takes effect at a later point only.
  unfoldable pub not_yet_authenticated_exit : Addr → Addr → Cmd env (Unit {0})
  not_yet_authenticated_exit b p = do
    blk ← get_block env b
    if is_not_auth blk.auth then (do destroy_packet env p; cancel_self env b) else pure tt

  -- A query whose failure is logged with DONT_EXIT.
  unfoldable pub query_or_log : Bytes → Cmd env (Unit {0})
  query_or_log query = do
    done ← run_query env query
    if done then pure tt else log_errors env (codes "mysql query execution failed")

  abbrev pub users_query : Bytes
  users_query = codes "SELECT * FROM " ++ (env.database_name ++ codes ".users")

  unfoldable pub set_revision_num : Addr → Cmd env (Unit {0})
  set_revision_num b = do
    query_or_log (snprintf mysql_query_buff users_query)
    found ← rows env
    modify_block env b (λ blk. record blk { revision_number = pos (length found) })

  abbrev pub user_query : ℤ → Bytes
  user_query id =
      codes "SELECT userid, username FROM "
      ++ (env.database_name
          ++ (codes ".users WHERE userid = " ++ (print_int id ++ codes " ORDER BY userid ")))

  -- The name and id of the first user found; NULL and short rows are read past their end.
  unfoldable pub send_user : Addr → List (List Bytes) → Cmd env (Unit {0})
  send_user b ((id ∷ username ∷ _) ∷ _) = do
    blk ← get_block env b
    send_msg_dontwait env b (
        snprintf max_packet_size (
          frame (pos users_packet) blk.userid blk.userid (type_code coord_data)
            (id ++ (colon ∷ username))))
  send_user b _ = λ _. fault

  unfoldable pub get_all_users : Addr → Addr → Cmd env (Unit {0})
  get_all_users b p = do
    not_yet_authenticated_exit b p
    set_revision_num b
    pk ← get_packet env p
    msg ← lift (text_of pk.msg)
    blk ← get_block env b
    if lt_int (atoi msg) blk.revision_number
        then (do
          query_or_log (snprintf mysql_query_buff (user_query (inc (atoi msg))))
          found ← rows env
          send_user b found)
        else send_msg_dontwait env b (
            snprintf max_packet_size
              (frame (pos fin_packet) blk.userid blk.userid (pos 0) (codes "0")))

  abbrev pub insert_message_query : Bytes → Packet → Bytes → Bytes
  insert_message_query now pk msg =
      codes "INSERT INTO "
      ++ (env.database_name
          ++ (codes
                ".messages(sender_id, receiver_id, time_sent, time_received, msg_type, message) "
              ++ (replicate 8 9
                  ++ (codes "VALUES("
                      ++ (print_int pk.sender_id
                          ++ (codes ", '"
                              ++ (print_int pk.receiver_id
                                  ++ (codes "', '"
                                      ++ (now
                                          ++ (codes "', '-1', '"
                                              ++ (print_int pk.tmsg
                                                  ++ (codes "', '"
                                                      ++ (msg ++ codes "' )")))))))))))))

  -- The receiver's own handler sends the message on; any other hands it to the receiver's queue, or
  -- stores it in the database when the receiver is not online.
  unfoldable pub deliver : Addr → Addr → Packet → Cmd env (Unit {0})
  deliver b p pk = do
    blk ← get_block env b
    if eqb pk.receiver_id blk.userid
        then (do
          msg ← lift (shown pk.msg)
          send_msg_dontwait env b (
              snprintf max_packet_size
                (frame (pos msg_packet) pk.sender_id pk.receiver_id pk.tmsg msg)))
        else (do
          node ← find_user env pk.receiver_id
          if node == 0
              then (do
                msg ← lift (shown pk.msg)
                (λ w.
                    query_or_log
                      (snprintf mysql_query_buff (insert_message_query (env.now w.db) pk msg)) w))
              else enqueue_to env node p)

  unfoldable pub route_message : Addr → Addr → Cmd env (Unit {0})
  route_message b p = do not_yet_authenticated_exit b p; pk ← get_packet env p; deliver b p pk

  abbrev pub waiting_query : ℤ → Bytes
  waiting_query id =
      codes "SELECT sender_id, receiver_id, msg_type, message FROM "
      ++ (env.database_name
          ++ (codes ".messages WHERE "
              ++ (replicate 7 9
                  ++ (codes "receiver_id = "
                      ++ (print_int id
                          ++ codes " AND time_received = '-1' ORDER BY time_sent ASC")))))

  abbrev pub received_query : Bytes → ℤ → Bytes
  received_query now id =
      codes "UPDATE "
      ++ (env.database_name
          ++ (codes ".messages SET time_received = '"
              ++ (now
                  ++ (codes "' WHERE receiver_id = "
                      ++ (print_int id ++ codes " AND time_received = '-1'")))))

  -- The `while` over the rows.
  unfoldable pub send_rows : Addr → List (List Bytes) → Cmd env (Unit {0})
  send_rows b [] = pure tt
  send_rows b ((sender ∷ receiver ∷ type ∷ msg ∷ _) ∷ more) = do
    send_msg_dontwait env b (snprintf max_packet_size (stored_msg sender receiver type msg))
    send_rows b more
  send_rows b (_ ∷ _) = λ _. fault

  unfoldable pub get_messages : Addr → Addr → Cmd env (Unit {0})
  get_messages b p = do
    not_yet_authenticated_exit b p
    blk ← get_block env b
    pk ← get_packet env p
    (if eqb blk.userid pk.sender_id
        then (do
          q ← lift (strcpy (suc mysql_query_buff) (waiting_query blk.userid))
          query_or_log q
          found ← rows env
          send_rows b found
          (λ w.
              and_then
                (lift (strcpy (suc mysql_query_buff) (received_query (env.now w.db) blk.userid)) w)
                query_or_log))
        else pure tt)
    destroy_packet env p
