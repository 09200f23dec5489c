-- ===== src/ConnectHandler/Frame/Accounts.antt =====
-- The registration and the authentication under a frame.
use concurrent_server.Base.{
  ◌≡◌, ◌+◌, ◌%◌, ◌^◌, refl, Option, none, some, List, [], ◌∷◌, ◌==◌, ℤ, pos, minus_one, eqb, ltb,
  ok, fault, arith, length, to_unsigned,
}
use concurrent_server.Text.{Bytes, strcpy, strncpy}
use concurrent_server.AddrTable.{Addr, insert_in_addr_table}
use concurrent_server.Packets.{text_of, max_packet_size}
use concurrent_server.ThreadBlock.{
  ThreadBlock, user_auth, user_to_exit, name_buf_size, passwd_buf_size,
}
use concurrent_server.ConnectHandler.World.{Env, World, modify_block}
use concurrent_server.ConnectHandler.Account.{
  mysql_query_buff, query_or_destroy, registrator, row_userid, log_in, new_user, fetched,
  authenticator, credentials, refuse_user, answer_authentication, authenticate_words,
  authenticate_user, register_words, register_new_user, fin_msg,
}
use concurrent_server.ConnectHandler.Frame.{
  Frame, Whole, Keeps, bind-Keeps, if-Keeps, pure-Keeps, get_block-Keeps, get_packet-Keeps,
  lift-Keeps, rows-Keeps, find_user-Keeps, destroy_packet-Keeps, run_query-Keeps, log_errors-Keeps,
  send_msg_dontwait-Keeps, set_auth-Keeps, cancel_self-Keeps, fault-Keeps,
  destroy_thread_node-Keeps,
}

module _ {env : Env} {b : Addr} {R : World env → World env → Type 0} (F : Frame env b R) where
  pub query_or_destroy-Keeps : (q : Bytes) → Keeps env R (query_or_destroy env b q)
  unfolding query_or_destroy
  query_or_destroy-Keeps q = bind-Keeps F (lift-Keeps F (strcpy mysql_query_buff q)) (λ q'.
      bind-Keeps F (run_query-Keeps F q') (λ done. if-Keeps F done (pure-Keeps F tt) (
        bind-Keeps F (log_errors-Keeps F _)
          (λ _. bind-Keeps F (destroy_thread_node-Keeps F) (λ _. cancel_self-Keeps F b)))))

  registrator-Keeps : (name passwd : Bytes) → Keeps env R (registrator env b name passwd)
  unfolding registrator
  registrator-Keeps name passwd = bind-Keeps F (query_or_destroy-Keeps _) (λ _.
      bind-Keeps F (get_block-Keeps F b) (λ _. bind-Keeps F (rows-Keeps F) (λ found.
        if-Keeps F (length found == 0)
          (bind-Keeps F (query_or_destroy-Keeps _) (λ _. pure-Keeps F (pos 0)))
          (pure-Keeps F minus_one))))

  pub credentials-Keeps : (p : Addr) → Keeps env R (credentials env p)
  unfolding credentials
  credentials-Keeps p = bind-Keeps F (get_packet-Keeps F p) (λ pk.
      bind-Keeps F (lift-Keeps F (text_of pk.msg)) (λ msg.
        bind-Keeps F (lift-Keeps F (strcpy max_packet_size msg))
          (λ str. bind-Keeps F (destroy_packet-Keeps F p) (λ _. pure-Keeps F _))))

  refuse_user-Keeps : Keeps env R (refuse_user env b)
  unfolding refuse_user
  refuse_user-Keeps =
      bind-Keeps F (send_msg_dontwait-Keeps F fin_msg)
        (λ _. bind-Keeps F (set_auth-Keeps F b user_to_exit) (λ _. cancel_self-Keeps F b))

  register_words-Keeps : (words : Option (Bytes × Bytes)) → Keeps env R (register_words env b words)
  unfolding register_words
  register_words-Keeps none = send_msg_dontwait-Keeps F fin_msg
  register_words-Keeps (some (nword, pword)) =
      bind-Keeps F (lift-Keeps F (strncpy name_buf_size nword)) (λ name.
        bind-Keeps F (lift-Keeps F (strncpy passwd_buf_size pword)) (λ passwd.
          bind-Keeps F (registrator-Keeps name passwd) (λ ret. send_msg_dontwait-Keeps F _)))

  pub register_new_user-Keeps : (p : Addr) → Keeps env R (register_new_user env b p)
  unfolding register_new_user
  register_new_user-Keeps p =
      bind-Keeps F (credentials-Keeps p) (λ words. register_words-Keeps words)

  row_userid-Keeps : (id : Bytes) → Keeps env R (row_userid env id)
  unfolding row_userid
  row_userid-Keeps id =
      if-Keeps F (ltb 10 (length id)) (fault-Keeps F)
        (λ w x w' e. F.quiet w w' (ground (arith, e)) (ground (arith, e)) (ground (arith, e)))

  -- The count of the users.
  count_user-Keeps :
      Keeps env R (λ w. ok (tt, record w { number_of_users = (w.number_of_users + 1) % 2 ^ 32 }))
  count_user-Keeps w x w' e =
      F.quiet w w' (ground (arith, e)) (ground (arith, e)) (ground (arith, e))

module _ {env : Env} {b : Addr} {R : World env → World env → Type 0} (F : Frame env b R)
    (modify : (a : Addr) (f : ThreadBlock env.Float → ThreadBlock env.Float)
      → ((blk : ThreadBlock env.Float) → (f blk).socket ≡ blk.socket)
      → Keeps env R (modify_block env a f))
    (enter : (userid : ℤ)
      → Keeps env R (λ w. elim (insert_in_addr_table w.table (to_unsigned userid) b) [
        | fault ↦ fault
        | ok t ↦ ok (tt, record w { table = t })
      ])) where
  -- A log-in, where the relation bears every change of a block and of the table.
  log_in-Keeps : (id username : Bytes) → Keeps env R (log_in env b id username)
  unfolding log_in new_user
  log_in-Keeps id username = bind-Keeps F (row_userid-Keeps F id) (λ userid.
      bind-Keeps F (modify b _ (λ blk. refl)) (λ _. bind-Keeps F (find_user-Keeps F userid) (λ node.
        if-Keeps F (node == 0)
          (bind-Keeps F
            (if-Keeps F (ltb name_buf_size (length username)) (fault-Keeps F)
              (modify b _ (λ blk. refl)))
            (λ _. bind-Keeps F (count_user-Keeps F) (λ _.
              bind-Keeps F (enter userid)
                (λ _. bind-Keeps F (set_auth-Keeps F b user_auth) (λ _. pure-Keeps F (pos 0))))))
          (pure-Keeps F minus_one))))

  fetched-Keeps : (found : List (List Bytes)) → Keeps env R (fetched env b found)
  unfolding fetched
  fetched-Keeps [] = bind-Keeps F (log_errors-Keeps F _) (λ _. pure-Keeps F minus_one)
  fetched-Keeps ([] ∷ _) = fault-Keeps F
  fetched-Keeps ((_ ∷ []) ∷ _) = fault-Keeps F
  fetched-Keeps ((id ∷ username ∷ _) ∷ _) = log_in-Keeps id username

  pub authenticator-Keeps : (name passwd : Bytes) → Keeps env R (authenticator env b name passwd)
  unfolding authenticator
  authenticator-Keeps name passwd = bind-Keeps F (query_or_destroy-Keeps F _) (λ _.
      bind-Keeps F (get_block-Keeps F b)
        (λ _. bind-Keeps F (rows-Keeps F) (λ found. fetched-Keeps found)))

module _ {env : Env} {b : Addr} {R : World env → World env → Type 0} (W : Whole env b R) where
  authenticate_words-Keeps :
      (words : Option (Bytes × Bytes)) → Keeps env R (authenticate_words env b words)
  unfolding authenticate_words answer_authentication
  authenticate_words-Keeps none = refuse_user-Keeps W.frame
  authenticate_words-Keeps (some (nword, pword)) =
      bind-Keeps W.frame (lift-Keeps W.frame (strcpy name_buf_size nword)) (λ name.
        bind-Keeps W.frame (lift-Keeps W.frame (strcpy passwd_buf_size pword)) (λ passwd.
          bind-Keeps W.frame (W.authenticated name passwd) (λ ret.
            if-Keeps W.frame (eqb ret (pos 0))
              (bind-Keeps W.frame (get_block-Keeps W.frame b)
                (λ blk. send_msg_dontwait-Keeps W.frame _))
              (refuse_user-Keeps W.frame))))

  pub authenticate_user-Keeps : (p : Addr) → Keeps env R (authenticate_user env b p)
  unfolding authenticate_user
  authenticate_user-Keeps p =
      bind-Keeps W.frame (credentials-Keeps W.frame p) (λ words. authenticate_words-Keeps words)
