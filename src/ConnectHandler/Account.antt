-- ===== src/ConnectHandler/Account.antt =====
-- The registration and the authentication of users: `registrator`, `authenticator`,
-- `authenticate_user` and `register_new_user` of connect_handler.c.
use concurrent_server.Base.{
  ℕ, ◌+◌, ◌%◌, ◌^◌, Option, none, some, List, [], ◌∷◌, ◌++◌, drop, length, ltb, ◌==◌, if◌then◌else◌,
  ℤ, pos, minus_one, to_unsigned, eqb, ok, fault,
}
use concurrent_server.Text.{Bytes, codes, atoi, strtok_r, strcpy, strncpy}
use concurrent_server.AddrTable.{Addr, insert_in_addr_table}
use concurrent_server.Packets.{text_of, frame, ack_packet, fin_packet, max_packet_size}
use concurrent_server.ThreadBlock.{user_auth, user_to_exit, name_buf_size, passwd_buf_size}
use concurrent_server.ConnectHandler.World.{
  Env, Cmd, pure, ◌>>=◌, ◌>>◌, lift, get_block, get_packet, modify_block, destroy_packet,
  send_msg_dontwait, run_query, rows, log_errors, cancel_self, set_auth, find_user,
  destroy_thread_node,
}

abbrev pub mysql_query_buff : ℕ
mysql_query_buff = 500

abbrev pub colon : ℕ
colon = b':'

-- The answers ACK and FIN: "|40|…|…|-1|-1|ACK|" and "|42|-1|-1|-1|FIN|".
abbrev pub ack_msg : ℤ → Bytes
ack_msg id = frame (pos ack_packet) id minus_one minus_one (codes "ACK")

abbrev pub fin_msg : Bytes
fin_msg = frame (pos fin_packet) minus_one minus_one minus_one (codes "FIN")

module _ (env : Env) where
  abbrev pub select_user_query : Bytes → Bytes → Bytes → Bytes
  select_user_query columns name passwd =
      codes "SELECT "
      ++ (columns
          ++ (codes " FROM "
              ++ (env.database_name
                  ++ (codes ".users WHERE username = '"
                      ++ (name ++ (codes "' AND userpasswd = '" ++ (passwd ++ codes "'")))))))

  abbrev pub insert_user_query : Bytes → Bytes → Bytes
  insert_user_query name passwd =
      codes "INSERT INTO "
      ++ (env.database_name
          ++ (codes ".users(username, userpasswd) VALUES ( '"
              ++ (name ++ (codes "', '" ++ (passwd ++ codes "')")))))

  -- A query whose failure is logged with DO_EXIT: that destroys the block and asks for the thread's
  -- cancellation. The callers go on to read the block, which is a fault; here the write of the flag
  -- `cancelled` already is.
  unfoldable pub query_or_destroy : Addr → Bytes → Cmd env (Unit {0})
  query_or_destroy b query = do
    q ← lift (strcpy mysql_query_buff query)
    done ← run_query env q
    if done then pure tt else (do
      log_errors env (codes "mysql query execution failed")
      destroy_thread_node env b
      cancel_self env b)

  -- The result is 0 for a new user, and -1 where the name and password are known.
  unfoldable pub registrator : Addr → Bytes → Bytes → Cmd env ℤ
  registrator b name passwd = do
    query_or_destroy b (select_user_query (codes "userid") name passwd)
    _ ← get_block env b
    found ← rows env
    if length found == 0
        then (do query_or_destroy b (insert_user_query name passwd); pure (pos 0))
        else pure minus_one

  -- The first row: its id is copied to the unwritten buffer `tmp` of 10 bytes and read from there.
  unfoldable pub row_userid : Bytes → Cmd env ℤ
  row_userid id =
      if ltb 10 (length id)
      then (λ _. fault)
      else (λ w. ok (atoi (id ++ env.behind w.db (length id)), w))

  -- The end of `authenticator`, for a user who is not online yet.
  unfoldable pub new_user : Addr → ℤ → Bytes → Cmd env ℤ
  new_user b userid username = do
    (if ltb name_buf_size (length username)
        then (λ _. fault)
        else modify_block env b
            (λ blk. record blk { username = username ++ drop (length username) blk.username }))
    (λ w. ok (tt, record w { number_of_users = (w.number_of_users + 1) % 2 ^ 32 }))
    (λ w. elim (insert_in_addr_table w.table (to_unsigned userid) b) [
      | fault ↦ fault
      | ok t ↦ ok (tt, record w { table = t })
    ])
    set_auth env b user_auth
    pure (pos 0)

  -- The rest of `authenticator`, behind the fetch of the row.
  unfoldable pub log_in : Addr → Bytes → Bytes → Cmd env ℤ
  log_in b id username = do
    userid ← row_userid id
    modify_block env b (λ blk. record blk { userid = userid })
    node ← find_user env userid
    if node == 0 then new_user b userid username else pure minus_one

  unfoldable pub fetched : Addr → List (List Bytes) → Cmd env ℤ
  fetched b [] = do log_errors env (codes "No such user on the system(mysql)"); pure minus_one
  fetched b ((id ∷ username ∷ _) ∷ _) = log_in b id username
  fetched b (_ ∷ _) = λ _. fault

  unfoldable pub authenticator : Addr → Bytes → Bytes → Cmd env ℤ
  authenticator b name passwd = do
    query_or_destroy b (select_user_query (codes "userid, username") name passwd)
    _ ← get_block env b
    found ← rows env
    fetched b found

  -- The text "name:password" of a packet, cut in two; the packet is destroyed.
  unfoldable pub credentials : Addr → Cmd env (Option (Bytes × Bytes))
  credentials p = do
    pk ← get_packet env p
    msg ← lift (text_of pk.msg)
    str ← lift (strcpy max_packet_size msg)
    destroy_packet env p
    pure (elim (strtok_r colon str) [
      | none ↦ none
      | some (nword, rest) ↦ elim (strtok_r colon rest) [
        | none ↦ none
        | some (pword, _) ↦ some (nword, pword)
      ]
    ])

  unfoldable pub refuse_user : Addr → Cmd env (Unit {0})
  refuse_user b = do send_msg_dontwait env b fin_msg; set_auth env b user_to_exit; cancel_self env b

  unfoldable pub answer_authentication : Addr → ℤ → Cmd env (Unit {0})
  answer_authentication b ret =
      if eqb ret (pos 0)
      then (do blk ← get_block env b; send_msg_dontwait env b (ack_msg blk.userid))
      else refuse_user b

  unfoldable pub authenticate_words : Addr → Option (Bytes × Bytes) → Cmd env (Unit {0})
  authenticate_words b none = refuse_user b
  authenticate_words b (some (nword, pword)) = do
    name ← lift (strcpy name_buf_size nword)
    passwd ← lift (strcpy passwd_buf_size pword)
    ret ← authenticator b name passwd
    answer_authentication b ret

  unfoldable pub authenticate_user : Addr → Addr → Cmd env (Unit {0})
  authenticate_user b p = do words ← credentials p; authenticate_words b words

  unfoldable pub register_words : Addr → Option (Bytes × Bytes) → Cmd env (Unit {0})
  register_words b none = send_msg_dontwait env b fin_msg
  register_words b (some (nword, pword)) = do
    name ← lift (strncpy name_buf_size nword)
    passwd ← lift (strncpy passwd_buf_size pword)
    ret ← registrator b name passwd
    send_msg_dontwait env b (if eqb ret (pos 0) then ack_msg minus_one else fin_msg)

  unfoldable pub register_new_user : Addr → Addr → Cmd env (Unit {0})
  register_new_user b p = do words ← credentials p; register_words b words
