-- ===== src/ConnectHandler/Login.antt =====
-- The log-in of a user, and the refusals.
use concurrent_server.Base.{
  ℕ, ◌+◌, ◌%◌, ◌^◌, ◌<◌, ◌≤◌, ◌≡◌, ◌≢◌, refl, true, none, some, List, [], ◌∷◌, ◌++◌, drop, length,
  ℤ, pos, minus_one, to_unsigned, ok, arith,
}
use concurrent_server.Text.{Bytes, atoi}
use concurrent_server.AddrTable.{
  Addr, Entry, Table, get_addr_from_addr_table, insert_in_addr_table, max_addr_table_size,
}
use concurrent_server.AddrTable.Spec.{Holds, erase}
use concurrent_server.AddrTable.Remove.{remove-Holds}
use concurrent_server.ThreadBlock.{ThreadBlock, user_auth, user_to_exit, name_buf_size}
use concurrent_server.ConnectHandler.Account.{
  log_in, new_user, row_userid, answer_authentication, refuse_user, fin_msg,
}
use concurrent_server.ConnectHandler.World.{
  Env, World, get_block, modify_block, with_block, find_user, set_auth, cancel_self,
  send_msg_dontwait, destroy_handlers_block, destroy_thread_node, destroy_queue,
}

module _ (env : Env) (w : World env) (b : Addr) (blk : ThreadBlock env.Float) where
  abbrev id_of : Bytes → ℤ
  id_of id = atoi (id ++ env.behind w.db (length id))

  -- The block after the log-in.
  abbrev pub logged_in : Bytes → Bytes → ThreadBlock env.Float
  logged_in id username = record blk {
    userid = id_of id;
    username = username ++ drop (length username) blk.username;
    auth = user_auth;
  }

  -- The world after it: three writes of the block, the count and the table.
  abbrev after_log_in : Bytes → Bytes → Table → World env
  after_log_in id username t =
      let w1 = with_block env w b (some (record blk { userid = id_of id })) in
      let w2 = with_block env w1 b (some (record (logged_in id username) { auth = blk.auth })) in
      with_block env (record w2 { number_of_users = (w.number_of_users + 1) % 2 ^ 32; table = t }) b
        (some (logged_in id username))

  -- A user who is not online yet is entered in the table with the address of the block; the block gets
  -- the id and the name, the user counts, and nothing is sent.
  pub log_in-new :
      (id username : Bytes) (t : Table)
      → w.blocks b ≡ some blk
      → length id ≤ 10
      → length username ≤ name_buf_size
      → get_addr_from_addr_table w.table (to_unsigned (id_of id)) ≡ ok 0
      → insert_in_addr_table w.table (to_unsigned (id_of id)) b ≡ ok t
      → (w' : World env) × (log_in env b id username w ≡ ok (pos 0, w'))
        × (w'.table ≡ t)
        × (w'.number_of_users ≡ (w.number_of_users + 1) % 2 ^ 32)
        × (w'.blocks b ≡ some (logged_in id username))
        × (w'.sent ≡ w.sent)
  unfolding log_in new_user row_userid get_block modify_block find_user set_auth
  log_in-new id username t at_b short short' gone room =
      (after_log_in id username t, ground (arith, at_b, gone, room), refl, refl, ground arith, refl)

  -- A user who is online already is turned down with -1, but the block keeps the id of that user.
  pub log_in-again :
      (id username : Bytes) (other : Addr)
      → w.blocks b ≡ some blk
      → length id ≤ 10
      → get_addr_from_addr_table w.table (to_unsigned (id_of id)) ≡ ok other
      → other ≢ 0
      → log_in env b id username w
        ≡ ok (minus_one, with_block env w b (some (record blk { userid = id_of id })))
  unfolding log_in new_user row_userid get_block modify_block find_user
  log_in-again id username other at_b short there ne = ground (arith, at_b, there, ne)

  -- An authentication that fails with -1 is answered with FIN, and the handler is to end: both its
  -- level and a cancellation request say so. The table and the other blocks stay.
  pub answer_authentication-refused :
      w.blocks b ≡ some blk
      → (w' : World env) × (answer_authentication env b minus_one w ≡ ok (tt, w'))
        × (w'.sent ≡ w.sent ++ (blk.socket, fin_msg) ∷ [])
        × (w'.blocks b ≡ some (record blk { auth = user_to_exit; cancelled = true }))
        × (w'.table ≡ w.table)
        × ((a : Addr) → a ≢ b → w'.blocks a ≡ w.blocks a)
  unfolding answer_authentication refuse_user send_msg_dontwait get_block modify_block set_auth
      cancel_self
  answer_authentication-refused at_b = (
    with_block env
        (with_block env (record w { sent = w.sent ++ (blk.socket, fin_msg) ∷ [] }) b
          (some (record blk { auth = user_to_exit })))
        b (some (record blk { auth = user_to_exit; cancelled = true })),
    ground (arith, at_b),
    refl,
    ground arith,
    refl,
    λ a ne. ground arith,
  )

  -- The clean-up of a handler with nothing in its queue, whose user has a positive `int` as id,
  -- takes the entry of its user out of a table of at most 98 entries, closes the socket and frees
  -- the block; all other blocks stay.
  pub destroy_handlers_block-erase :
      (xs : List Entry)
      → w.blocks b ≡ some blk
      → blk.in_queue ≡ []
      → Holds w.table xs
      → 0 < to_unsigned blk.userid
      → to_unsigned blk.userid < 2 ^ 31
      → length xs + 1 < max_addr_table_size
      → (w' : World env) × (destroy_handlers_block env b w ≡ ok (tt, w'))
        × Holds w'.table (erase (to_unsigned blk.userid) xs)
        × (w'.blocks b ≡ none)
        × (w'.closed ≡ w.closed ++ blk.socket ∷ [])
        × ((a : Addr) → a ≢ b → w'.blocks a ≡ w.blocks a)
  unfolding destroy_handlers_block destroy_thread_node get_block modify_block set_auth destroy_queue
  destroy_handlers_block-erase xs at_b idle h k s room =
      let (t, run, left) = remove-Holds h (to_unsigned blk.userid) k s room in
      (
        with_block env
            (record (with_block env (record w { table = t }) b
              (some (record blk { auth = user_to_exit }))) { closed = w.closed ++ blk.socket ∷ [] })
            b none,
        ground (arith, at_b, idle, run),
        left,
        ground arith,
        refl,
        λ a ne. ground arith,
      )

module _ (env : Env) (w : World env) (b : Addr) (blk : ThreadBlock env.Float)
    (id username : Bytes) where
  abbrev pub uid : ℕ
  uid = to_unsigned (id_of env w b blk id)
