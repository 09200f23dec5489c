-- ===== src/Server/Start.antt =====
-- The start of the server from its command line.
use concurrent_server.Base.{
  ℕ, ℤ, minus_one, ◌≡◌, ◌<◌, refl, ap, Bool, true, some, List, [], ◌∷◌, length, ◌==◌, if◌then◌else◌,
  ok, arith,
}
use concurrent_server.Text.{Bytes, codes, strcpy, print_int, atoi, as_int}
use concurrent_server.Text.Printf.{print_from, printf}
use concurrent_server.ErrorLog.{init_logs_object, log_filename}
use concurrent_server.ConnectHandler.World.{Env}
use concurrent_server.ConnectHandler.Account.{mysql_query_buff}
use concurrent_server.Server.{
  Calls, MysqlInfo, set_net_data, set_mysql_data, ask, create_tables, prepare_database, start, main,
  schema_query, create_database_query, create_users_query, create_messages_query,
}

abbrev chat : Bytes
chat = codes "concurrent_chat"

-- The log file has a name where HOME is set.
log_opened :
    (home : Bytes) (fopen : Bytes → Bool)
    → fopen (log_filename (some home)) ≡ true
    → init_logs_object (some home) fopen ≡ some (log_filename (some home))
unfolding init_logs_object
log_opened [] fopen opens = ground (arith, opens)
log_opened (c ∷ home) fopen opens = ground (arith, opens)

copied : (size : ℕ) (s : Bytes) → length s < size → strcpy size s ≡ ok s
unfolding strcpy
copied size s short = ground (arith, short)

set_net_data-copies :
    (port : ℤ) (ip : Bytes)
    → length ip < 16
    → set_net_data port ip ≡ ok (record { ip_addr = ip; port = port; socket = minus_one })
unfolding set_net_data
set_net_data-copies port ip short = rw (copied 16 ip short)

abbrev mysql_info : Bytes → Bytes → Bytes → MysqlInfo
mysql_info serv user pwd = record {
  server_name = serv;
  user_name = user;
  user_password = pwd;
  database_name = chat;
}

set_mysql_data-copies :
    (serv user pwd : Bytes)
    → length serv < 20
    → length user < 20
    → length pwd < 20
    → set_mysql_data serv user pwd chat ≡ ok (mysql_info serv user pwd)
unfolding set_mysql_data
set_mysql_data-copies serv user pwd short1 short2 short3 = rw (
  copied 20 serv short1,
  copied 20 user short2,
  copied 20 pwd short3,
  copied 20 chat (omega arith),
)

module _ (env : Env) where
  -- The queries, by their formats.
  abbrev pub schema_text : Bytes
  schema_text =
      printf (codes "SELECT SCHEMA_NAME FROM INFORMATION_SCHEMA.SCHEMATA WHERE SCHEMA_NAME = '%s'")
        (chat ∷ [])

  abbrev pub database_text : Bytes
  database_text = printf (codes "CREATE DATABASE %s") (chat ∷ [])

  abbrev pub users_text : Bytes
  users_text =
      printf
        (codes
          "CREATE TABLE %s.users (                 userid INTEGER NOT NULL AUTO_INCREMENT PRIMARY KEY,                 username VARCHAR(%d) NOT NULL,                 userpasswd VARCHAR(%d) NOT NULL                )")
        (chat ∷ codes "100" ∷ codes "120" ∷ [])

  abbrev pub messages_text : Bytes
  messages_text =
      printf
        (codes
          "CREATE TABLE %s.messages (                 sender_id INTEGER NOT NULL,                 receiver_id INTEGER NOT NULL,                 time_sent DECIMAL(20, 0),                 time_received DECIMAL(20, 0),                 msg_type INTEGER NOT NULL,                 message VARCHAR(%d) NOT NULL                )")
        (chat ∷ codes "179" ∷ [])

  texts :
      (schema_query chat ≡ schema_text)
      × (create_database_query chat ≡ database_text)
      × (create_users_query chat ≡ users_text)
      × (create_messages_query chat ≡ messages_text)
  unfolding print_from print_int
  texts = (refl, refl, refl, refl)

  -- The database after a query.
  abbrev pub asked : Bytes → env.Db → env.Db
  asked query db = (env.mysql_query query db).1

  abbrev pub Answers : Type 0
  Answers = (query : Bytes) (db : env.Db) → (env.mysql_query query db).0 ≡ true

  ask-done :
      Answers
      → (query : Bytes) (db : env.Db) → length query < mysql_query_buff
      → ask env query db ≡ ok (true, asked query db)
  unfolding ask
  ask-done answers query db short =
      rw (copied mysql_query_buff query short) (ap (λ b. ok (b, asked query db)) (answers query db))

  -- The database with its tables.
  abbrev pub created : env.Db → env.Db
  created db = asked messages_text (asked users_text (asked database_text db))

  create_tables-all : Answers → (db : env.Db) → create_tables env chat db ≡ ok (true, created db)
  unfolding create_tables print_int print_from
  create_tables-all answers db =
      let (_, q1, q2, q3) = texts in
      let db1 = asked database_text db in
      let db2 = asked users_text db1 in
      rw (
        q1,
        q2,
        q3,
        ask-done answers database_text db (omega arith),
        ask-done answers users_text db1 (omega arith),
        ask-done answers messages_text db2 (omega arith),
      )

  -- The database when the server listens.
  abbrev pub prepared : List (List Bytes) → env.Db → env.Db
  prepared found db = if length found == 0 then created db else db

  prepare_database-all :
      Answers
      → (db : env.Db) (found : List (List Bytes)) → env.result (asked schema_text db) ≡ some found
      → prepare_database env chat db ≡ ok (true, prepared found (asked schema_text db))
  unfolding prepare_database print_from
  prepare_database-all answers db found rows =
      rw (texts.0, ask-done answers schema_text db (omega arith), rows)
        (ground (arith, create_tables-all answers (asked schema_text db)))

  abbrev pub Succeed : Calls → Type 0
  Succeed calls =
      (calls.create_generic_list ≡ true)
      × (calls.mysql_init ≡ true)
      × (calls.mysql_real_connect ≡ true)
      × (calls.sigaction ≡ true)
      × (calls.socket ≡ true)
      × (calls.bind ≡ true)

  start-listens :
      Answers
      → (calls : Calls) (info : MysqlInfo) (db : env.Db) (found : List (List Bytes)) → Succeed calls
      → info.database_name ≡ chat
      → env.result (asked schema_text db) ≡ some found
      → start env calls info db ≡ ok (true, prepared found (asked schema_text db))
  unfolding start
  start-listens answers calls info db found (c1, c2, c3, c4, c5, c6) name rows =
      rw (c1, c2, c3, name, prepare_database-all answers db found rows, c4, c5, c6)

  -- With its five arguments in their buffers, where HOME is set, the log file opens and all calls
  -- and queries succeed, the server gets to listen; and the database has been asked for its schema
  -- and then, exactly if the answer had no row, to create the database and its two tables, in the words
  -- of the formats. Where there is such a schema, no table is created or looked for. No text is too long
  -- for its buffer.
  pub main-listens :
      (home : Bytes) (fopen : Bytes → Bool) (calls : Calls) (prog port ip serv user pwd : Bytes)
      (more : List Bytes) (db : env.Db) (found : List (List Bytes))
      → fopen (log_filename (some home)) ≡ true
      → Succeed calls
      → length ip < 16
      → length serv < 20
      → length user < 20
      → length pwd < 20
      → Answers
      → env.result (asked schema_text db) ≡ some found
      → main env (some home) fopen calls (prog ∷ port ∷ ip ∷ serv ∷ user ∷ pwd ∷ more) db
        ≡ ok (true, prepared found (asked schema_text db))
  unfolding main
  main-listens home fopen calls prog port ip serv user pwd more db found opens done short1 short2
        short3 short4 answers rows =
      cc (
        log_opened home fopen opens,
        set_net_data-copies (as_int (atoi port)) ip short1,
        set_mysql_data-copies serv user pwd short2 short3 short4,
        start-listens answers calls (mysql_info serv user pwd) db found done refl rows,
      )
