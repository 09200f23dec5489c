-- ===== src/Examples/Worlds.antt =====
-- Small worlds for the handlers of connect_handler.c.
use concurrent_server.Base.{
  ℕ, ◌+◌, ◌≡◌, refl, true, false, none, some, List, [], ◌∷◌, ◌==◌, if◌then◌else◌, ℤ, pos, minus_one,
  to_unsigned, ok, arith,
}
use concurrent_server.Text.{Bytes, codes}
use concurrent_server.AddrTable.{Entry, entry, Table, get_addr_from_addr_table}
use concurrent_server.AddrTable.Spec.{Holds, zeros, lookup}
use concurrent_server.AddrTable.Search.{get-lookup}
use concurrent_server.Packets.{Packet, text, wild, msg_packet}
use concurrent_server.ThreadBlock.{ThreadBlock, UserAuthLevel, user_not_auth, user_auth}
use concurrent_server.ConnectHandler.World.{Env, World}
use concurrent_server.ConnectHandler.Delivery.{IsSending}

-- A database that counts the queries and answers each with the rows given.
abbrev pub env_with : List (List Bytes) → Env
env_with found = record {
  Db = ℕ;
  mysql_query = λ q n. (true, n + 1);
  result = λ n. some found;
  Float = Bytes;
  strtof = λ s. s;
  print_float = λ s. s;
  database_name = codes "chat";
  now = λ n. codes "0";
  behind = λ n m. [];
  supply = λ n. record {
    strdup = true;
    memory =
        some
          (record { ptype = 0; sender_id = pos 0; receiver_id = pos 0; tmsg = pos 0; msg = wild });
    strndup = true;
  };
}

abbrev pub env : Env
env = env_with []

abbrev pub block : ℕ → ℤ → UserAuthLevel → ThreadBlock Bytes
block socket userid auth = record {
  socket = socket;
  userid = userid;
  username = [];
  auth = auth;
  revision_number = pos 0;
  loc = record { longitude = codes "1"; lattitude = codes "2" };
  in_queue = [];
  cancelled = false;
}

-- The users 3 and 5 are online, with their blocks at 70 and 90; a client at 80 is not logged in.
abbrev pub alice : ThreadBlock Bytes
alice = block 11 (pos 3) user_auth

abbrev pub bob : ThreadBlock Bytes
bob = block 12 (pos 5) user_auth

abbrev pub guest : ThreadBlock Bytes
guest = block 13 minus_one user_not_auth

abbrev pub entries : List Entry
entries = entry 3 70 ∷ entry 5 90 ∷ []

abbrev pub online : Table
online = record { len = pos 2; addrs = entry 3 70 ∷ entry 5 90 ∷ zeros 98 }

pub online-Holds : Holds online entries
online-Holds = record { len = refl; addrs = refl; sorted = (omega arith, (omega arith, tt)) }

-- One packet, at 200.
abbrev pub world_with : (found : List (List Bytes)) → Packet → World (env_with found)
world_with found pk = record {
  blocks = λ a.
      if a == 70
      then some alice
      else if a == 90
      then some bob
      else if a == 80
      then some guest
      else none;
  packets = λ a. if a == 200 then some pk else none;
  next_packet = 201;
  table = online;
  number_of_users = 2;
  db = 0;
  sent = [];
  closed = [];
  logged = [];
}

abbrev pub world : Packet → World env
world pk = world_with [] pk

abbrev pub packet_to : ℕ → ℤ → Bytes → Packet
packet_to ptype receiver s = record {
  ptype = ptype;
  sender_id = pos 3;
  receiver_id = receiver;
  tmsg = pos 12;
  msg = text s;
}

abbrev pub to_bob : Packet
to_bob = packet_to msg_packet (pos 5) (codes "hello")

pub to_bob-IsSending : IsSending env (world to_bob) 70 200 alice to_bob
to_bob-IsSending = record { sender = refl; auth = refl; packet = refl; other = refl }

pub bob_found : get_addr_from_addr_table online (to_unsigned (pos 5)) ≡ ok 90
unfolding to_unsigned lookup
bob_found = get-lookup online-Holds 5 (omega arith) (omega arith) (omega arith)

pub alice_looked_up : lookup 3 entries ≡ 70
unfolding lookup
alice_looked_up = refl

pub alice_found : get_addr_from_addr_table online (to_unsigned (pos 3)) ≡ ok 70
unfolding to_unsigned lookup
alice_found = get-lookup online-Holds 3 (omega arith) (omega arith) (omega arith)
