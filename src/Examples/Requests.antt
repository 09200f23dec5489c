-- ===== src/Examples/Requests.antt =====
-- Registrations, places and faults in the handlers of connect_handler.c.
use concurrent_server.Base.{inr, inl, fault, ◌≡◌, refl, none, some, List, [], ◌∷◌, pos, ok, arith}
use concurrent_server.Text.{Bytes, codes}
use concurrent_server.Text.Printf.{print_from}
use concurrent_server.Packets.{Packet, get_geo_packet, set_geo_packet}
use concurrent_server.ConnectHandler.World.{with_block, with_packet}
use concurrent_server.ConnectHandler.Account.{register_words}
use concurrent_server.ConnectHandler.Location.{set_location}
use concurrent_server.ConnectHandler.Places.{set_location-placed, placed}
use concurrent_server.ConnectHandler.Registration.{IsAsked, answered, register_words-answered}
use concurrent_server.ConnectHandler.Loop.{interpret_packets}
use concurrent_server.ConnectHandler.Faults.{interpret_packets-unauthenticated}
use concurrent_server.Examples.Worlds.{env, alice, guest, world, packet_to, to_bob}

abbrev geo : Bytes
geo = codes "1:2"

abbrev my_place : Packet
my_place = packet_to set_geo_packet (pos 3) geo

set_location-placed_example :
    set_location env 70 200 (world my_place)
    ≡ ok (
      tt,
      with_packet env
          (with_block env
            (world my_place)
            70
            (some (placed env (world my_place) 70 alice refl refl (codes "1") (codes "2"))))
          200
          none,
    )
set_location-placed_example =
    set_location-placed env (world my_place) 70 alice refl refl 200 my_place (codes "1") (codes "2")
      [] refl refl (ground arith) (ground arith) (ground arith) (ground arith) (inl refl)

abbrev own : Packet
own = packet_to get_geo_packet (pos 3) (codes "0")

-- The client at 80 has not logged in, and sends a message.
interpret_packets-unauthenticated_example : interpret_packets env 80 200 (world to_bob) ≡ fault
interpret_packets-unauthenticated_example =
    interpret_packets-unauthenticated env (world to_bob) 80 200 guest to_bob refl refl refl
      (inr (inr (inl refl)))

carol-IsAsked : IsAsked env (world to_bob) 80 guest (codes "carol") (codes "secret") 1 []
unfolding print_from
carol-IsAsked = record {
  block = refl;
  name_fits = omega arith;
  passwd_fits = omega arith;
  query_fits = omega arith;
  answer = refl;
  result = refl;
}

-- The same client, where the database knows the name and the password.
abbrev row : List Bytes
row = codes "4" ∷ []

register_words-answered_example :
    register_words env 80 (some (codes "carol", codes "secret")) (world to_bob)
    ≡ ok (tt, answered env (world to_bob) 80 guest (codes "carol") (codes "secret") 1 2 [])
unfolding print_from
register_words-answered_example =
    register_words-answered env (world to_bob) 80 guest (codes "carol") (codes "secret") 1 2 []
      carol-IsAsked (λ _. omega arith) (λ _. refl)
