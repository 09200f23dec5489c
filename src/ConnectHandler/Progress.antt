-- ===== src/ConnectHandler/Progress.antt =====
-- How a handler works its queue off: every message that waits is sent, the oldest first.
use concurrent_server.Base.{
  ℕ, zero, suc, ◌≡◌, ◌≢◌, refl, ap, ◌∙◌, sym, Bool, true, false, ◌||◌, none, some, List, [], ◌∷◌,
  ◌++◌, ◌==◌, if◌then◌else◌, eqb, ok, arith, append_assoc, append-nil, length,
}
use concurrent_server.Text.{Bytes}
use concurrent_server.AddrTable.{Addr}
use concurrent_server.Packets.{Packet, text, msg_packet}
use concurrent_server.ThreadBlock.{ThreadBlock, user_auth}
use concurrent_server.ConnectHandler.Loop.{serve, read_queue}
use concurrent_server.ConnectHandler.Delivery.{msg_text, serve-message, to_socket}
use concurrent_server.ConnectHandler.World.{
  Env, World, Cmd, pure, ◌>>◌, get_block, with_block, with_packet,
}

-- A packet that waits: its address, and the packet with its text.
pub record Item : Type 0 where
  pub at : Addr
  pub packet : Packet
  pub body : Bytes

abbrev pub at_item : Addr → List Item → Bool
at_item a [] = false
at_item a (i ∷ is) = (a == i.at) || at_item a is

abbrev pub addresses : List Item → List Addr
addresses [] = []
addresses (i ∷ is) = i.at ∷ addresses is

abbrev pub texts : List Item → List Bytes
texts [] = []
texts (i ∷ is) = msg_text i.packet i.body ∷ texts is

module _ (env : Env) where
  -- The packets are in memory, at different addresses, and are messages with a text for the user.
  abbrev pub AllWait : World env → ThreadBlock env.Float → List Item → Type 0
  AllWait w node [] = Unit
  AllWait w node (i ∷ is) =
      (w.packets i.at ≡ some i.packet)
      × (i.at ≢ 0)
      × (i.packet.ptype ≡ msg_packet)
      × (i.packet.msg ≡ text i.body)
      × (eqb i.packet.receiver_id node.userid ≡ true)
      × (at_item i.at is ≡ false)
      × AllWait w node is

  -- The turns of the handler at its queue, one after the other.
  abbrev pub turns : ℕ → Addr → Cmd env (Unit {0})
  turns zero b = pure tt
  turns (suc n) b = read_queue env b >> turns n b

  -- Packets elsewhere do not matter.
  wait_on :
      (w w' : World env) (node node' : ThreadBlock env.Float) (p : Addr) (is : List Item)
      → ((a : Addr) → (a == p) ≡ false → w'.packets a ≡ w.packets a)
      → node'.userid ≡ node.userid
      → at_item p is ≡ false
      → AllWait w node is
      → AllWait w' node' is
  wait_on w w' node node' p [] same user out h = tt
  wait_on w w' node node' p (i ∷ is) same user out (stored, ne, type, msg, mine, apart, rest) = (
    same i.at (ground (arith, out)) ∙ stored,
    ne,
    type,
    msg,
    rw user mine,
    apart,
    wait_on w w' node node' p is same user (ground (arith, out)) rest,
  )

  one_more :
      (w w1 w2 : World env) (n : Addr) (node : ThreadBlock env.Float) (k : ℕ) (ps : List Addr)
      → w.blocks n ≡ some node
      → node.in_queue ≡ ps
      → serve env n ps w ≡ ok (tt, w1)
      → turns k n w1 ≡ ok (tt, w2)
      → turns (suc k) n w ≡ ok (tt, w2)
  unfolding read_queue get_block
  one_more w w1 w2 n node k ps at_n queued served more = ground (arith, at_n, queued, served, more)

  -- A handler of a user who is logged in, in whose queue messages for this user wait: after as many
  -- turns at the queue as there are messages, its client has been sent all of them, the oldest first,
  -- their packets and no others are freed, and the queue is empty.
  pub turns-drain :
      (items : List Item) (w : World env) (n : Addr) (node : ThreadBlock env.Float)
      → w.blocks n ≡ some node
      → node.auth ≡ user_auth
      → node.in_queue ≡ addresses items
      → AllWait w node items
      → (w' : World env) × (turns (length items) n w ≡ ok (tt, w'))
        × (w'.sent ≡ w.sent ++ to_socket node.socket (texts items))
        × (w'.blocks n ≡ some (record node { in_queue = [] }))
        × ((a : Addr) → w'.packets a ≡ (if at_item a items then none else w.packets a))
  turns-drain [] w n node at_n auth queued h = (
    w,
    refl,
    sym (append-nil w.sent),
    at_n ∙ ap (λ q. some (record node { in_queue = q })) queued,
    λ a. refl,
  )
  turns-drain (i ∷ is) w n node at_n auth queued (stored, ne, type, msg, mine, apart, rest) =
      let ps = addresses is in
      let node1 : ThreadBlock env.Float = record node { in_queue = ps } in
      let w1 : World env = record (with_packet env (with_block env w n (some node1)) i.at none) {
        sent = w.sent ++ (node.socket, msg_text i.packet i.body) ∷ [];
      } in
      let served : serve env n (i.at ∷ ps) w ≡ ok (tt, w1) =
        serve-message env w n i.at ps node i.packet i.body at_n auth stored ne type msg mine in
      let same : (a : Addr) → (a == i.at) ≡ false → w1.packets a ≡ w.packets a =
        λ a other. ground (arith, other) in
      let (w2, run, sent, block, freed) =
        turns-drain is w1 n node1 (ground arith) auth refl
          (wait_on w w1 node node1 i.at is same refl apart rest) in
      (
        w2,
        one_more w w1 w2 n node (length is) (i.at ∷ ps) at_n queued served run,
        sent
            ∙ append_assoc w.sent ((node.socket, msg_text i.packet i.body) ∷ [])
                (to_socket node.socket (texts is)),
        block,
        λ a. freed a ∙ ground arith,
      )
