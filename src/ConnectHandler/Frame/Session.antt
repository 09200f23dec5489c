-- ===== src/ConnectHandler/Frame/Session.antt =====
-- A whole session of `connection_handler` under a frame.
use concurrent_server.Base.{true, false, Option, List, [], ◌∷◌}
use concurrent_server.Text.{Bytes}
use concurrent_server.AddrTable.{Addr}
use concurrent_server.ConnectHandler.World.{Env, World}
use concurrent_server.ConnectHandler.Loop.{is_to_exit, test_cancel, round, connection_handler}
use concurrent_server.ConnectHandler.Frame.{
  Keeps, Whole, bind-Keeps, if-Keeps, pure-Keeps, get_block-Keeps,
}
use concurrent_server.ConnectHandler.Frame.Socket.{read_socket-Keeps, read_queue-Keeps}

module _ {env : Env} {b : Addr} {R : World env → World env → Type 0} (W : Whole env b R) where
  pub test_cancel-Keeps : Keeps env R (test_cancel env b)
  unfolding test_cancel
  test_cancel-Keeps = bind-Keeps W.frame (get_block-Keeps W.frame b) (λ blk.
      if-Keeps W.frame blk.cancelled
        (bind-Keeps W.frame W.destroyed (λ _. pure-Keeps W.frame false)) (pure-Keeps W.frame true))

  round-Keeps : (input : Option Bytes) → Keeps env R (round env b input)
  unfolding round
  round-Keeps input = bind-Keeps W.frame (get_block-Keeps W.frame b) (λ blk.
      if-Keeps W.frame (is_to_exit blk.auth)
        (bind-Keeps W.frame W.destroyed (λ _. pure-Keeps W.frame false))
        (bind-Keeps W.frame (read_socket-Keeps W input)
          (λ _. bind-Keeps W.frame (read_queue-Keeps W) (λ _. test_cancel-Keeps))))

  pub session-Keeps : (inputs : List (Option Bytes)) → Keeps env R (connection_handler env b inputs)
  unfolding connection_handler
  session-Keeps [] = pure-Keeps W.frame true
  session-Keeps (input ∷ more) =
      bind-Keeps W.frame (round-Keeps input)
        (λ going. if-Keeps W.frame going (session-Keeps more) (pure-Keeps W.frame false))
