-- ===== src/ConnectHandler/Faults.antt =====
-- Inputs of a client on which connect_handler.c has undefined behaviour.
use concurrent_server.Base.{ℕ, ◌≡◌, some, ◌⊎◌, fault, arith}
use concurrent_server.AddrTable.{Addr}
use concurrent_server.Packets.{
  Packet, logout_packet, close_packet, msg_packet, get_msg_packet, get_geo_packet, set_geo_packet,
  geo_packet,
}
use concurrent_server.ThreadBlock.{ThreadBlock, user_not_auth}
use concurrent_server.ConnectHandler.Messages.{
  not_yet_authenticated_exit, route_message, get_messages,
}
use concurrent_server.ConnectHandler.Location.{get_location, set_location, pass_location}
use concurrent_server.ConnectHandler.Loop.{interpret_packets, dispatch, log_out}
use concurrent_server.ConnectHandler.World.{
  Env, World, get_block, get_packet, destroy_packet, cancel_self,
}

-- The packet types, other than the list of users, that read the packet after the test of the log-in.
abbrev pub ReadsPacket : ℕ → Type 0
ReadsPacket t =
    (t ≡ logout_packet)
    ⊎ (t ≡ close_packet)
    ⊎ (t ≡ msg_packet)
    ⊎ (t ≡ get_msg_packet)
    ⊎ (t ≡ get_geo_packet)
    ⊎ (t ≡ set_geo_packet)
    ⊎ (t ≡ geo_packet)

module _ (env : Env) (w : World env) (b p : Addr) (blk : ThreadBlock env.Float) (pk : Packet) where
  -- A packet of such a type from a client who is not logged in is freed, and then read.
  pub interpret_packets-unauthenticated :
      w.blocks b ≡ some blk
      → blk.auth ≡ user_not_auth
      → w.packets p ≡ some pk
      → ReadsPacket pk.ptype
      → interpret_packets env b p w ≡ fault
  unfolding interpret_packets dispatch log_out route_message get_messages get_location set_location
      pass_location not_yet_authenticated_exit get_block get_packet destroy_packet cancel_self
  interpret_packets-unauthenticated at_b no_user at_p type = ground (arith, at_b, no_user, at_p)
