-- ===== src/ConnectHandler/Isolation.antt =====
-- What a handler sends: only to its own client, whatever the packet.
use concurrent_server.Base.{
  ℕ, ℤ, ◌≡◌, refl, ap, ◌∙◌, sym, Bool, Option, some, List, [], ◌∷◌, ◌++◌, ok, fault, arith,
  append_assoc, append-nil, to_unsigned,
}
use concurrent_server.Text.{Bytes}
use concurrent_server.AddrTable.{Addr, remove_from_addr_table}
use concurrent_server.ThreadBlock.{ThreadBlock}
use concurrent_server.ConnectHandler.World.{
  Env, World, get_block, modify_block, send_msg_dontwait, destroy_handlers_block,
}
use concurrent_server.ConnectHandler.Loop.{connection_handler}
use concurrent_server.ConnectHandler.Delivery.{to_socket}
use concurrent_server.ConnectHandler.Frame.{
  Keeps, Frame, Whole, and_then_parts, bind-Keeps, get_block-Keeps, destroy_thread_node-Keeps,
}
use concurrent_server.ConnectHandler.Frame.Accounts.{authenticator-Keeps}
use concurrent_server.ConnectHandler.Frame.Session.{session-Keeps}

to_socket-append :
    (s : ℕ) (ts us : List Bytes) → to_socket s (ts ++ us) ≡ to_socket s ts ++ to_socket s us
to_socket-append s [] us = refl
to_socket-append s (t ∷ ts) us = rw (to_socket-append s ts us)

-- A read that succeeds finds the block.
pub get_block_found :
    (env : Env) (a : Addr) (w w1 : World env) (blk : ThreadBlock env.Float)
    → get_block env a w ≡ ok (blk, w1)
    → (w.blocks a ≡ some blk) × (w1 ≡ w)
unfolding get_block
get_block_found env a w w1 blk e = (ground (arith, e), ground (arith, e))

module _ (env : Env) (b : Addr) (s : ℕ) where
  -- The block at `b`, as long as it is there, has the socket `s`.
  abbrev Owns : World env → Type 0
  Owns w = (blk : ThreadBlock env.Float) → w.blocks b ≡ some blk → blk.socket ≡ s

  -- All messages that were added are for the socket `s`, and the block keeps its socket.
  abbrev Local : World env → World env → Type 0
  Local w w' = Owns w → Owns w' × (ts : List Bytes) × (w'.sent ≡ w.sent ++ to_socket s ts)

  -- The same world but for what does not matter here.
  quiet : (w w' : World env) → w'.blocks ≡ w.blocks → w'.sent ≡ w.sent → Local w w'
  quiet w w' p q o =
      (λ blk at_b. o blk (sym (ap (λ f. f b) p) ∙ at_b), [], q ∙ sym (append-nil w.sent))

  trans-Local : (u v w : World env) → Local u v → Local v w → Local u w
  trans-Local u v w l m o =
      let (o1, ts, p) = l o in
      let (o2, us, q) = m o1 in
      (
        o2,
        ts ++ us,
        q
            ∙ ap (λ x. x ++ to_socket s us) p
            ∙ append_assoc u.sent (to_socket s ts) (to_socket s us)
            ∙ ap (λ x. u.sent ++ x) (sym (to_socket-append s ts us)),
      )

  modify-Local :
      (a : Addr) (f : ThreadBlock env.Float → ThreadBlock env.Float)
      → ((blk : ThreadBlock env.Float) → (f blk).socket ≡ blk.socket)
      → Keeps env Local (modify_block env a f)
  unfolding modify_block
  modify-Local a f kept w x w' e o =
      let (blk0, w1, p, q) = and_then_parts (get_block env a w) _ (x, w') e in
      let (found, same) = get_block_found env a w w1 blk0 p in
      (
        λ blk at_b. ground (arith, found, same, q, at_b, kept blk0, o blk0, o blk),
        [],
        ground (arith, same, q, append-nil w.sent),
      )

  send-Local : (m : Bytes) → Keeps env Local (send_msg_dontwait env b m)
  unfolding send_msg_dontwait
  send-Local m w x w' e o =
      let (blk0, w1, p, q) = and_then_parts (get_block env b w) _ (x, w') e in
      let (found, same) = get_block_found env b w w1 blk0 p in
      (
        λ blk at_b. ground (arith, same, q, at_b, o blk),
        m ∷ [],
        ground (arith, same, q, o blk0 found),
      )

  Local-Frame : Frame env b Local
  Local-Frame = record {
    trans = trans-Local;
    quiet = λ w w' p _ q. quiet w w' p q;
    modify = λ a f inner. modify-Local a f (λ blk. (inner blk).0);
    send = send-Local;
    free_block = λ k w x w' e o.
        (λ blk at_b. ground (arith, e, at_b, o blk), [], ground (arith, e, append-nil w.sent));
  }

  leave-Local :
      (userid : ℤ)
      → Keeps env Local (λ w. elim (remove_from_addr_table w.table (to_unsigned userid)) [
        | fault ↦ fault
        | ok (hold, t) ↦ ok (tt, record w { table = t })
      ])
  leave-Local userid w x w' e = quiet w w' (ground (arith, e)) (ground (arith, e))

  destroyed-Local : Keeps env Local (destroy_handlers_block env b)
  unfolding destroy_handlers_block
  destroyed-Local = bind-Keeps Local-Frame (get_block-Keeps Local-Frame b) (λ blk.
      bind-Keeps Local-Frame (leave-Local blk.userid) (λ _. destroy_thread_node-Keeps Local-Frame))

  Local-Whole : Whole env b Local
  Local-Whole = record {
    frame = Local-Frame;
    authenticated =
        authenticator-Keeps Local-Frame modify-Local
          (λ userid w x w' e. quiet w w' (ground (arith, e)) (ground (arith, e)));
    destroyed = destroyed-Local;
  }

-- Whatever a client sends, and whatever waits in its queue: as long as the handler's rounds meet no
-- fault, all that they send goes to the socket of that client, behind what was sent before; and the
-- block, if it is still there, has the same socket.
pub connection_handler-sends :
    (env : Env) (b : Addr) (w w' : World env) (blk : ThreadBlock env.Float)
    (inputs : List (Option Bytes)) (going : Bool)
    → w.blocks b ≡ some blk
    → connection_handler env b inputs w ≡ ok (going, w')
    → ((left : ThreadBlock env.Float) → w'.blocks b ≡ some left → left.socket ≡ blk.socket)
      × (ts : List Bytes) × (w'.sent ≡ w.sent ++ to_socket blk.socket ts)
connection_handler-sends env b w w' blk inputs going at_b run =
    session-Keeps (Local-Whole env b blk.socket) inputs w going w' run
      (λ left there. ground (arith, at_b, there))
