-- ===== src/ConnectHandler/Loop.antt =====
-- `interpret_packets` and the loop of `connection_handler` in connect_handler.c.
use concurrent_server.Base.{
  ℕ, Bool, true, false, ◌||◌, Option, none, some, List, [], ◌∷◌, ◌==◌, if◌then◌else◌, eqb,
}
use concurrent_server.Text.{Bytes}
use concurrent_server.AddrTable.{Addr}
use concurrent_server.Packets.{
  reg_packet, auth_packet, logout_packet, close_packet, get_all_users_packet, msg_packet,
  get_msg_packet, get_geo_packet, set_geo_packet, geo_packet,
}
use concurrent_server.ThreadBlock.{UserAuthLevel, user_to_exit}
use concurrent_server.ConnectHandler.Account.{register_new_user, authenticate_user}
use concurrent_server.ConnectHandler.Messages.{
  not_yet_authenticated_exit, get_all_users, route_message, get_messages,
}
use concurrent_server.ConnectHandler.Location.{get_location, set_location, pass_location}
use concurrent_server.ConnectHandler.World.{
  Env, Cmd, pure, ◌>>=◌, ◌>>◌, get_block, get_packet, modify_block, destroy_packet, cancel_self,
  set_auth, receive_packet, destroy_handlers_block,
}

abbrev pub is_to_exit : UserAuthLevel → Bool
is_to_exit user_to_exit = true
is_to_exit _ = false

module _ (env : Env) where
  -- The packet is not destroyed here.
  unfoldable pub log_out : Addr → Addr → Cmd env (Unit {0})
  log_out b p = do
    not_yet_authenticated_exit env b p
    blk ← get_block env b
    pk ← get_packet env p
    if eqb blk.userid pk.sender_id
        then (do set_auth env b user_to_exit; cancel_self env b)
        else pure tt

  -- The `switch` on the type of the packet.
  unfoldable pub dispatch : ℕ → Addr → Addr → Cmd env (Unit {0})
  dispatch ptype b p =
      if ptype == reg_packet
      then register_new_user env b p
      else if ptype == auth_packet
      then authenticate_user env b p
      else if (ptype == logout_packet) || (ptype == close_packet)
      then log_out b p
      else if ptype == get_all_users_packet
      then get_all_users env b p
      else if ptype == msg_packet
      then route_message env b p
      else if ptype == get_msg_packet
      then get_messages env b p
      else if ptype == get_geo_packet
      then get_location env b p
      else if ptype == set_geo_packet
      then set_location env b p
      else if ptype == geo_packet
      then pass_location env b p
      else not_yet_authenticated_exit env b p

  unfoldable pub interpret_packets : Addr → Addr → Cmd env (Unit {0})
  interpret_packets b p = do pk ← get_packet env p; dispatch pk.ptype b p

  -- The part of a round that reads the socket; `none` is that nothing has come. A NULL packet is
  -- interpreted as well, which is a fault.
  unfoldable pub read_socket : Addr → Option Bytes → Cmd env (Unit {0})
  read_socket b none = pure tt
  read_socket b (some buff) = do p ← receive_packet env buff; interpret_packets b p

  -- The part that takes one packet from the queue, and destroys it when it is interpreted.
  unfoldable pub serve : Addr → List Addr → Cmd env (Unit {0})
  serve b [] = pure tt
  serve b (p ∷ ps) = do
    modify_block env b (λ blk. record blk { in_queue = ps })
    if p == 0 then pure tt else (do interpret_packets b p; destroy_packet env p)

  unfoldable pub read_queue : Addr → Cmd env (Unit {0})
  read_queue b = do blk ← get_block env b; serve b blk.in_queue

  -- `pthread_testcancel`; the flag of the result is whether the handler goes on.
  unfoldable pub test_cancel : Addr → Cmd env Bool
  test_cancel b = do
    blk ← get_block env b
    if blk.cancelled then (do destroy_handlers_block env b; pure false) else pure true

  -- One round of the loop; the clean-up runs when the handler ends.
  unfoldable pub round : Addr → Option Bytes → Cmd env Bool
  round b input = do
    blk ← get_block env b
    if is_to_exit blk.auth
        then (do destroy_handlers_block env b; pure false)
        else (do read_socket b input; read_queue b; test_cancel b)

  -- The rounds over the inputs of the socket, until the handler ends or they run out.
  unfoldable pub connection_handler : Addr → List (Option Bytes) → Cmd env Bool
  connection_handler b [] = pure true
  connection_handler b (input ∷ more) = do
    going ← round b input
    if going then connection_handler b more else pure false
