-- ===== src/Examples/Interleavings.antt =====
-- The handlers of several connections on small worlds.
use concurrent_server.Base.{
  ℕ, ◌≡◌, ◌≢◌, inl, inr, refl, ap, Bool-cases, none, some, List, [], ◌∷◌, pos, to_unsigned, ok,
  arith, if◌then◌else◌, ◌==◌,
}
use concurrent_server.Text.{Bytes, codes}
use concurrent_server.Packets.{Packet, msg_packet}
use concurrent_server.ThreadBlock.{ThreadBlock}
use concurrent_server.ConnectHandler.World.{World, destroy_handlers_block, with_block, with_packet}
use concurrent_server.ConnectHandler.Delivery.{to_socket, msg_text}
use concurrent_server.ConnectHandler.Sound.{Sound, HasIds, IsId}
use concurrent_server.ConnectHandler.System.{exits, turn, here, next, Reach-Sound}
use concurrent_server.ConnectHandler.Survival.{Turn-spares}
use concurrent_server.ConnectHandler.Login.{destroy_handlers_block-erase}
use concurrent_server.ConnectHandler.Progress.{Item, at_item, turns, turns-drain}
use concurrent_server.Examples.Worlds.{
  env, alice, bob, guest, entries, online-Holds, world, packet_to, to_bob,
}

-- The ids of the users who are logged in.
alice-IsId : (blk : ThreadBlock Bytes) → blk ≡ alice → IsId blk.userid
unfolding to_unsigned
alice-IsId blk is = rw is (ground arith)

bob-IsId : (blk : ThreadBlock Bytes) → blk ≡ bob → IsId blk.userid
unfolding to_unsigned
bob-IsId blk is = rw is (ground arith)

env-HasIds : HasIds env
env-HasIds name passwd db db' found asked is = ground (arith, is)

world-Sound : Sound env (world to_bob)
world-Sound = record {
  entries = entries;
  held = online-Holds;
  real = (λ q. ground (arith, q), (λ q. ground (arith, q), tt));
  users = λ a blk e. elim (Bool-cases (a == 70)) [
    | inl p ↦ let is : blk ≡ alice = ground (arith, e, p) in inr (alice-IsId blk is)
    | inr p ↦ elim (Bool-cases (a == 90)) [
      | inl q ↦ let is : blk ≡ bob = ground (arith, e, p, q) in inr (bob-IsId blk is)
      | inr q ↦ elim (Bool-cases (a == 80)) [
        | inl r ↦ let is : blk ≡ guest = ground (arith, e, p, q, r) in inl (ap (λ k. k.userid) is)
        | inr r ↦ absurd (ground (arith, e, p, q, r))
      ]
    ]
  ];
}

-- Bob's handler exits.
bob_ends :
    (w' : World env) × (destroy_handlers_block env 90 (world to_bob) ≡ ok (tt, w'))
    × (w'.blocks 90 ≡ none)
    × (w'.closed ≡ 12 ∷ [])
    × ((a : ℕ) → a ≢ 90 → w'.blocks a ≡ (world to_bob).blocks a)
bob_ends =
    let (w', run, held, gone, closed, others) =
      destroy_handlers_block-erase env (world to_bob) 90 bob entries refl refl online-Holds
        (bob-IsId bob refl).0 (bob-IsId bob refl).1 (omega arith) in
    (w', run, gone, closed, others)

abbrev bob_gone : World env
bob_gone = bob_ends.0

bob_exits : destroy_handlers_block env 90 (world to_bob) ≡ ok (tt, bob_gone)
bob_exits = bob_ends.1

Reach-Sound_example : Sound env bob_gone
Reach-Sound_example =
    Reach-Sound env env-HasIds (next here (turn 90 (omega arith) (exits bob_exits))) world-Sound

Turn-spares_example :
    (blk' : ThreadBlock Bytes) × (bob_gone.blocks 70 ≡ some blk') × (blk'.socket ≡ 11)
Turn-spares_example =
    Turn-spares env 90 (world to_bob) bob_gone 70 alice (exits bob_exits) (omega arith) refl

-- Two messages wait for Bob.
abbrev again : Packet
again = packet_to msg_packet (pos 5) (codes "again")

abbrev waiting : List Item
waiting =
    record { at = 200; packet = to_bob; body = codes "hello" }
    ∷ record { at = 201; packet = again; body = codes "again" }
    ∷ []

abbrev bob_waits : ThreadBlock Bytes
bob_waits = record bob { in_queue = 200 ∷ 201 ∷ [] }

abbrev busy : World env
busy = with_packet env (with_block env (world to_bob) 90 (some bob_waits)) 201 (some again)

turns-drain_example :
    (w' : World env) × (turns env 2 90 busy ≡ ok (tt, w'))
    × (w'.sent
        ≡ to_socket 12 (msg_text to_bob (codes "hello") ∷ msg_text again (codes "again") ∷ []))
    × (w'.blocks 90 ≡ some bob)
    × ((a : ℕ) → w'.packets a ≡ (if at_item a waiting then none else busy.packets a))
turns-drain_example =
    turns-drain env waiting busy 90 bob_waits refl refl refl
      (refl, omega arith, refl, refl, refl, refl, (refl, omega arith, refl, refl, refl, refl, tt))
