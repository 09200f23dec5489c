-- ===== src/ConnectHandler/Registration.antt =====
-- The registration of users.
use concurrent_server.Base.{
  ◌<◌, ◌≡◌, refl, true, some, List, [], ◌∷◌, ◌++◌, length, minus_one, ok, arith,
}
use concurrent_server.Text.{Bytes, codes, strcpy, strncpy}
use concurrent_server.Text.Printf.{print_from, printf}
use concurrent_server.AddrTable.{Addr}
use concurrent_server.ThreadBlock.{ThreadBlock, name_buf_size, passwd_buf_size}
use concurrent_server.ConnectHandler.Account.{
  registrator, register_words, query_or_destroy, select_user_query, insert_user_query, ack_msg,
  fin_msg, mysql_query_buff,
}
use concurrent_server.ConnectHandler.World.{
  Env, World, get_block, run_query, rows, send_msg_dontwait,
}

module _ (env : Env) (w : World env) (b : Addr) (blk : ThreadBlock env.Float)
    (name passwd : Bytes) where
  -- The two queries, by their formats.
  abbrev pub asked : Bytes
  asked =
      printf (codes "SELECT userid FROM %s.users WHERE username = '%s' AND userpasswd = '%s'")
        (env.database_name ∷ name ∷ passwd ∷ [])

  abbrev pub stored : Bytes
  stored =
      printf (codes "INSERT INTO %s.users(username, userpasswd) VALUES ( '%s', '%s')")
        (env.database_name ∷ name ∷ passwd ∷ [])

  asks : select_user_query env (codes "userid") name passwd ≡ asked
  unfolding print_from
  asks = refl

  stores : insert_user_query env name passwd ≡ stored
  unfolding print_from
  stores = refl

  -- The query for the name and the password succeeds, the texts fit their buffers.
  pub record IsAsked (db : env.Db) (found : List (List Bytes)) : Type 0 where
    pub block : w.blocks b ≡ some blk
    pub name_fits : length name < name_buf_size
    pub passwd_fits : length passwd < passwd_buf_size
    pub query_fits : length asked < mysql_query_buff
    pub answer : env.mysql_query asked w.db ≡ (true, db)
    pub result : env.result db ≡ some found

  -- A name and a password that fit their buffers and that the database does not have are stored by
  -- one INSERT, when the two queries fit and succeed, and answered with ACK; nothing else changes.
  register_words-new :
      (db db' : env.Db)
      → IsAsked db []
      → length stored < mysql_query_buff
      → env.mysql_query stored db ≡ (true, db')
      → register_words env b (some (name, passwd)) w
        ≡ ok (tt, record w { db = db'; sent = w.sent ++ (blk.socket, ack_msg minus_one) ∷ [] })
  unfolding register_words registrator query_or_destroy get_block run_query rows send_msg_dontwait
      strcpy strncpy
  register_words-new db db' h fits done = ground (
    arith, asks, stores, h.block, h.name_fits, h.passwd_fits, h.query_fits, h.answer, h.result,
    fits, done,
  )

  -- A name and a password that fit their buffers and that the database has, by a query that fits
  -- and succeeds, are answered with FIN; nothing is stored and the client stays connected.
  register_words-known :
      (db : env.Db) (row : List Bytes) (more : List (List Bytes))
      → IsAsked db (row ∷ more)
      → register_words env b (some (name, passwd)) w
        ≡ ok (tt, record w { db = db; sent = w.sent ++ (blk.socket, fin_msg) ∷ [] })
  unfolding register_words registrator query_or_destroy get_block run_query rows send_msg_dontwait
      strcpy strncpy
  register_words-known db row more h =
      ground (arith, asks, h.block, h.name_fits, h.passwd_fits, h.query_fits, h.answer, h.result)

  -- What a registration leaves, where `found` are the rows with the name and the password.
  abbrev pub answered : env.Db → env.Db → List (List Bytes) → World env
  answered db db' [] = record w { db = db'; sent = w.sent ++ (blk.socket, ack_msg minus_one) ∷ [] }
  answered db db' (row ∷ more) = record w { db = db; sent = w.sent ++ (blk.socket, fin_msg) ∷ [] }

  -- A registration whose name and password fit their buffers asks for the users with this name and
  -- this password; the query is to fit and to succeed. Where there are none, also when there is a user
  -- with the same name and another password, one INSERT of the name and the password, which is to fit
  -- and to succeed, stores them, and the answer is ACK. Where there is one, the answer is FIN and nothing
  -- is stored. Nothing else changes. Both queries are what their formats print.
  pub register_words-answered :
      (db db' : env.Db) (found : List (List Bytes))
      → IsAsked db found
      → (found ≡ [] → length stored < mysql_query_buff)
      → (found ≡ [] → env.mysql_query stored db ≡ (true, db'))
      → register_words env b (some (name, passwd)) w ≡ ok (tt, answered db db' found)
  register_words-answered db db' [] h fits done =
      register_words-new db db' h (fits refl) (done refl)
  register_words-answered db db' (row ∷ more) h fits done = register_words-known db row more h
