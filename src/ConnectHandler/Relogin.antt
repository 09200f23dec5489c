-- ===== src/ConnectHandler/Relogin.antt =====
-- Two log-ins of one connection.
use concurrent_server.Base.{ℕ}
use concurrent_server.Text.{Bytes}
use concurrent_server.AddrTable.{Addr}
use concurrent_server.ThreadBlock.{ThreadBlock}
use concurrent_server.ConnectHandler.World.{Env, World}
use concurrent_server.ConnectHandler.Login.{uid}

module _ (env : Env) (w : World env) (b : Addr) (blk : ThreadBlock env.Float)
    (id username : Bytes) where
  abbrev new_id : ℕ
  new_id = uid env w b blk id username
