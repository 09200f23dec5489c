-- ===== src/Server.antt =====
-- server.h, server.c and main.c: the data of the server, its start, and the database that it prepares.
-- The accept loop and the shutdown are in the module Accept. An end of the process in the start is
-- the flag false of a result; the database stays as it was then.
pub mod Start
pub mod Accept
pub mod Connecting
pub mod Early
pub mod Shutdown
pub mod Traffic
pub mod Consistent
pub mod Coming
pub mod Registering
pub mod Rounds
pub mod Safe
pub mod Ending
use concurrent_server.Base.{
  ℕ, Bool, true, false, ◌&&◌, Option, none, some, List, [], ◌∷◌, ◌++◌, length, ◌==◌, if◌then◌else◌,
  ℤ, pos, minus_one, Outcome, ok, fault, ◌>>=◌,
}
use concurrent_server.Text.{Bytes, codes, strcpy, atoi, as_int, print_int}
use concurrent_server.Packets.{max_data_size}
use concurrent_server.ThreadBlock.{name_buf_size, passwd_buf_size}
use concurrent_server.ErrorLog.{init_logs_object}
use concurrent_server.ConnectHandler.World.{Env}
use concurrent_server.ConnectHandler.Account.{mysql_query_buff}

pub record NetInfo : Type 0 where
  pub ip_addr : Bytes
  pub port : ℤ
  pub socket : ℤ

pub record MysqlInfo : Type 0 where
  pub server_name : Bytes
  pub user_name : Bytes
  pub user_password : Bytes
  pub database_name : Bytes

unfoldable pub set_net_data : ℤ → Bytes → Outcome NetInfo
set_net_data port ip = do
  ip' ← strcpy 16 ip
  ok (record { ip_addr = ip'; port = port; socket = minus_one })

unfoldable pub set_mysql_data : Bytes → Bytes → Bytes → Bytes → Outcome MysqlInfo
set_mysql_data serv user pwd dbname = do
  server_name ← strcpy 20 serv
  user_name ← strcpy 20 user
  user_password ← strcpy 20 pwd
  database_name ← strcpy 20 dbname
  ok (record {
    server_name = server_name;
    user_name = user_name;
    user_password = user_password;
    database_name = database_name;
  })

-- The queries, with the white space of their literals.
abbrev pub schema_query : Bytes → Bytes
schema_query name =
    codes "SELECT SCHEMA_NAME FROM INFORMATION_SCHEMA.SCHEMATA WHERE SCHEMA_NAME = '"
    ++ (name ++ (codes "'"))

abbrev pub create_database_query : Bytes → Bytes
create_database_query name = codes "CREATE DATABASE " ++ (name)

abbrev pub create_users_query : Bytes → Bytes
create_users_query name =
    codes "CREATE TABLE "
    ++ (name
        ++ (codes
              ".users (                 userid INTEGER NOT NULL AUTO_INCREMENT PRIMARY KEY,                 username VARCHAR("
            ++ (print_int (pos name_buf_size)
                ++ (codes ") NOT NULL,                 userpasswd VARCHAR("
                    ++ (print_int (pos passwd_buf_size)
                        ++ (codes ") NOT NULL                )"))))))

abbrev pub create_messages_query : Bytes → Bytes
create_messages_query name =
    codes "CREATE TABLE "
    ++ (name
        ++ (codes
              ".messages (                 sender_id INTEGER NOT NULL,                 receiver_id INTEGER NOT NULL,                 time_sent DECIMAL(20, 0),                 time_received DECIMAL(20, 0),                 msg_type INTEGER NOT NULL,                 message VARCHAR("
            ++ (print_int (pos max_data_size) ++ (codes ") NOT NULL                )"))))

-- What the calls of the start return, but for those to the database.
pub record Calls : Type 0 where
  pub create_generic_list : Bool
  pub mysql_init : Bool
  pub mysql_real_connect : Bool
  pub sigaction : Bool
  pub socket : Bool
  pub bind : Bool

module _ (env : Env) where
  -- `sprintf` into `db_query`, and the query.
  unfoldable pub ask : Bytes → env.Db → Outcome (Bool × env.Db)
  ask query db = do q ← strcpy mysql_query_buff query; ok (env.mysql_query q db)

  -- The creation of the tables; what CREATE DATABASE returns is not looked at.
  unfoldable pub create_tables : Bytes → env.Db → Outcome (Bool × env.Db)
  create_tables name db = do
    (_, db1) ← ask (create_database_query name) db
    (users, db2) ← ask (create_users_query name) db1
    if users then ask (create_messages_query name) db2 else ok (false, db2)

  -- The result of the first query is stored without a test, and its rows are counted.
  unfoldable pub prepare_database : Bytes → env.Db → Outcome (Bool × env.Db)
  prepare_database name db = do
    (done, db1) ← ask (schema_query name) db
    if done
        then elim (env.result db1) [
          | none ↦ fault
          | some rows ↦ if length rows == 0 then create_tables name db1 else ok (true, db1)
        ]
        else ok (false, db1)

  -- `make_server` up to `listen`, whose result is not looked at.
  unfoldable pub start : Calls → MysqlInfo → env.Db → Outcome (Bool × env.Db)
  start calls info db =
      if calls.create_generic_list && (calls.mysql_init && calls.mysql_real_connect)
      then (do
        (done, db1) ← prepare_database info.database_name db
        ok (done && (calls.sigaction && (calls.socket && calls.bind)), db1))
      else ok (false, db)

  -- `main` up to the accept loop. `home` is the variable HOME, and `fopen` whether the log file can
  -- be opened.
  unfoldable pub main :
      Option Bytes → (Bytes → Bool) → Calls → List Bytes → env.Db → Outcome (Bool × env.Db)
  main home fopen calls (_ ∷ (port ∷ (ip ∷ (serv ∷ (user ∷ (pwd ∷ more)))))) db =
      elim (init_logs_object home fopen) [
        | none ↦ ok (false, db)
        | some _ ↦ (do
          net ← set_net_data (as_int (atoi port)) ip
          info ← set_mysql_data serv user pwd (codes "concurrent_chat")
          start calls info db)
      ]
  main home fopen calls _ db = ok (false, db)
