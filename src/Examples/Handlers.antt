-- ===== src/Examples/Handlers.antt =====
-- Messages on their way between the handlers of connect_handler.c.
use concurrent_server.Base.{◌≡◌, refl, none, some, [], ◌∷◌, pos, to_unsigned, ok, fault, arith}
use concurrent_server.Text.{codes}
use concurrent_server.AddrTable.{get_addr_from_addr_table}
use concurrent_server.AddrTable.Spec.{lookup}
use concurrent_server.AddrTable.Search.{get-lookup}
use concurrent_server.Packets.{Packet, msg_packet}
use concurrent_server.ConnectHandler.World.{World, pure, with_block, destroy_handlers_block, ◌>>◌}
use concurrent_server.ConnectHandler.Messages.{route_message}
use concurrent_server.ConnectHandler.Loop.{read_queue}
use concurrent_server.ConnectHandler.Delivery.{message_arrives, msg_text, route_message-offline}
use concurrent_server.ConnectHandler.Race.{deliver_around, deliver_around-clean_up}
use concurrent_server.Examples.Worlds.{
  entries, to_bob-IsSending, bob_found, env, alice, bob, online, online-Holds, world, packet_to,
  to_bob,
}

message_arrives_example :
    (w' : World env) × ((route_message env 70 200 >> read_queue env 90) (world to_bob)
      ≡ ok (tt, w'))
    × (w'.sent ≡ (12, msg_text to_bob (codes "hello")) ∷ [])
    × (w'.packets 200 ≡ none)
    × (w'.blocks 90 ≡ some bob)
message_arrives_example =
    message_arrives env (world to_bob) 70 200 90 alice bob to_bob (codes "hello") to_bob-IsSending
      bob_found (omega arith) refl refl refl (omega arith) refl refl refl

-- A message to user 4, who is not online.
abbrev to_carol : Packet
to_carol = packet_to msg_packet (pos 4) (codes "hello")

carol_gone : get_addr_from_addr_table online (to_unsigned (pos 4)) ≡ ok 0
unfolding to_unsigned lookup
carol_gone = get-lookup online-Holds 4 (omega arith) (omega arith) (omega arith)

route_message-offline_example :
    route_message env 70 200 (world to_carol) ≡ ok (tt, record (world to_carol) { db = 1 })
route_message-offline_example =
    route_message-offline env (world to_carol) 70 200 alice to_carol (codes "hello")
      (record { sender = refl; auth = refl; packet = refl; other = refl }) refl carol_gone

deliver_around-clean_up_example :
    (deliver_around env (pure tt) 70 200 to_bob (world to_bob)
      ≡ ok (tt, with_block env (world to_bob) 90 (some (record bob { in_queue = 200 ∷ [] }))))
    × (deliver_around env (destroy_handlers_block env 90) 70 200 to_bob (world to_bob) ≡ fault)
unfolding to_unsigned lookup
deliver_around-clean_up_example =
    deliver_around-clean_up env (world to_bob) 70 200 90 to_bob alice bob entries refl refl
      online-Holds refl (omega arith) refl refl refl (omega arith) (omega arith) (omega arith)
