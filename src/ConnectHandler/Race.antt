-- ===== src/ConnectHandler/Race.antt =====
-- A message to a user whose handler ends at the wrong moment. `interpret_packets` of connect_handler.c
-- gives the mutex of the address table back before it takes that of the receiver's queue.
use mathlib.Core.Path.{subst}
use concurrent_server.Base.{
  ◌+◌, ◌^◌, ◌<◌, ◌≡◌, ◌≢◌, ap, sym, ◌∙◌, false, some, List, [], ◌∷◌, length, ok, fault, eqb,
  to_unsigned, arith, ◌==◌, if◌then◌else◌,
}
use concurrent_server.AddrTable.{Addr, Entry, max_addr_table_size, get_addr_from_addr_table}
use concurrent_server.AddrTable.Spec.{Holds, lookup}
use concurrent_server.AddrTable.Search.{get-lookup}
use concurrent_server.Packets.{Packet}
use concurrent_server.ThreadBlock.{ThreadBlock}
use concurrent_server.ConnectHandler.World.{
  Env, World, Cmd, pure, ◌>>=◌, ◌>>◌, get_block, find_user, enqueue_to, modify_block,
  destroy_handlers_block, with_block,
}
use concurrent_server.ConnectHandler.Messages.{deliver}
use concurrent_server.ConnectHandler.Login.{destroy_handlers_block-erase}

module _ (env : Env) where
  -- `deliver`, with what another thread does between the two mutexes.
  unfoldable pub deliver_around : Cmd env (Unit {0}) → Addr → Addr → Packet → Cmd env (Unit {0})
  deliver_around between b p pk = do
    blk ← get_block env b
    node ← (if eqb pk.receiver_id blk.userid then pure 0 else find_user env pk.receiver_id)
    if node == 0 then deliver env b p pk else (do between; enqueue_to env node p)

  -- When no other thread does anything in between, this is `deliver`.
  deliver_around-deliver :
      (w : World env) (b p : Addr) (pk : Packet) (blk : ThreadBlock env.Float) (node : Addr)
      → w.blocks b ≡ some blk
      → find_user env pk.receiver_id w ≡ ok (node, w)
      → deliver_around (pure tt) b p pk w ≡ deliver env b p pk w
  unfolding deliver_around deliver get_block
  deliver_around-deliver w b p pk blk node at_b found = ground (arith, at_b, found)

  -- A message from one user to another one who is online under the id of its block, where the
  -- receiver's handler has nothing waiting, with a table of at most 98 entries and a positive `int` as
  -- id. When nothing happens in between, the packet is put into the receiver's queue. But when the
  -- receiver's handler ends between the lookup and the insertion, with its whole clean-up, the sender's
  -- handler then puts the packet into the freed block.
  pub deliver_around-clean_up :
      (w : World env) (b p node : Addr) (pk : Packet) (blk r : ThreadBlock env.Float)
      (xs : List Entry)
      → w.blocks b ≡ some blk
      → eqb pk.receiver_id blk.userid ≡ false
      → Holds w.table xs
      → lookup (to_unsigned pk.receiver_id) xs ≡ node
      → node ≢ 0
      → w.blocks node ≡ some r
      → r.userid ≡ pk.receiver_id
      → r.in_queue ≡ []
      → 0 < to_unsigned pk.receiver_id
      → to_unsigned pk.receiver_id < 2 ^ 31
      → length xs + 1 < max_addr_table_size
      → (deliver_around (pure tt) b p pk w
          ≡ ok (tt, with_block env w node (some (record r { in_queue = p ∷ [] }))))
        × (deliver_around (destroy_handlers_block env node) b p pk w ≡ fault)
  unfolding deliver_around get_block find_user enqueue_to modify_block
  deliver_around-clean_up w b p node pk blk r xs at_b other h there ne at_n same idle k s room =
      let id = to_unsigned pk.receiver_id in
      let found : get_addr_from_addr_table w.table id ≡ ok node =
        get-lookup h id k s (omega (arith, room)) ∙ ap ok there in
      let (w', run, _, gone, _, _) =
        destroy_handlers_block-erase env w node r xs at_n idle h
          (subst (λ z. 0 < to_unsigned z) (sym same) k)
          (subst (λ z. to_unsigned z < 2 ^ 31) (sym same) s) room in
      (
        ground (arith, at_b, other, found, ne, at_n, idle),
        ground (arith, at_b, other, found, ne, run, gone),
      )
