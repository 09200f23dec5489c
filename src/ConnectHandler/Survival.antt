-- ===== src/ConnectHandler/Survival.antt =====
-- A handler frees no block but its own.
use concurrent_server.Base.{
  ℤ, ◌≡◌, ◌≢◌, refl, ap, ◌∙◌, some, ◌==◌, ok, fault, arith, to_unsigned, Bool-cases, inl, inr,
}
use concurrent_server.AddrTable.{Addr, remove_from_addr_table}
use concurrent_server.ThreadBlock.{ThreadBlock}
use concurrent_server.ConnectHandler.World.{
  Env, World, get_block, modify_block, send_msg_dontwait, destroy_handlers_block,
}
use concurrent_server.ConnectHandler.Frame.{
  Keeps, Frame, Whole, and_then_parts, bind-Keeps, get_block-Keeps, destroy_thread_node-Keeps,
}
use concurrent_server.ConnectHandler.Frame.Accounts.{authenticator-Keeps}
use concurrent_server.ConnectHandler.Isolation.{get_block_found}
use concurrent_server.ConnectHandler.System.{Turn, Turn-Keeps}

module _ (env : Env) (b : Addr) where
  -- Every block but the one at `b` is still there, with its socket.
  abbrev Others : World env → World env → Type 0
  Others w w' =
      (a : Addr) (blk : ThreadBlock env.Float)
      → a ≢ b
      → w.blocks a ≡ some blk
      → (blk' : ThreadBlock env.Float) × (w'.blocks a ≡ some blk') × (blk'.socket ≡ blk.socket)

  quiet : (w w' : World env) → w'.blocks ≡ w.blocks → Others w w'
  quiet w w' p a blk ne e = (blk, ap (λ f. f a) p ∙ e, refl)

  modify-Others :
      (c : Addr) (f : ThreadBlock env.Float → ThreadBlock env.Float)
      → ((blk : ThreadBlock env.Float) → (f blk).socket ≡ blk.socket)
      → Keeps env Others (modify_block env c f)
  unfolding modify_block
  modify-Others c f kept w x w' run a blk ne e =
      let (blk0, w1, p, q) = and_then_parts (get_block env c w) _ (x, w') run in
      let (found, same) = get_block_found env c w w1 blk0 p in
      elim (Bool-cases (a == c)) [
        | inl here ↦
            let is : blk0 ≡ blk = ground (arith, here, found, e) in
            (f blk0, ground (arith, same, q, here), kept blk0 ∙ ap (λ k. k.socket) is)
        | inr there ↦ (blk, ground (arith, same, q, there, e), refl)
      ]

  Others-Frame : Frame env b Others
  unfolding send_msg_dontwait
  Others-Frame = record {
    trans = λ u v w l m a blk ne e.
        let (blk1, e1, s1) = l a blk ne e in
        let (blk2, e2, s2) = m a blk1 ne e1 in (blk2, e2, s2 ∙ s1);
    quiet = λ w w' p _ _. quiet w w' p;
    modify = λ c f inner. modify-Others c f (λ blk. (inner blk).0);
    send = λ m w x w' run.
        let (blk0, w1, p, q) = and_then_parts (get_block env b w) _ (x, w') run in
        let (found, same) = get_block_found env b w w1 blk0 p in
        quiet w w' (ground (arith, same, q));
    free_block = λ k w x w' run a blk ne e. (blk, ground (arith, run, ne, e), refl);
  }

  leave-Others :
      (userid : ℤ)
      → Keeps env Others (λ w. elim (remove_from_addr_table w.table (to_unsigned userid)) [
        | fault ↦ fault
        | ok (hold, t) ↦ ok (tt, record w { table = t })
      ])
  leave-Others userid w x w' e = quiet w w' (ground (arith, e))

  destroyed-Others : Keeps env Others (destroy_handlers_block env b)
  unfolding destroy_handlers_block
  destroyed-Others = bind-Keeps Others-Frame (get_block-Keeps Others-Frame b) (λ blk.
      bind-Keeps Others-Frame (leave-Others blk.userid)
        (λ _. destroy_thread_node-Keeps Others-Frame))

  Others-Whole : Whole env b Others
  Others-Whole = record {
    frame = Others-Frame;
    authenticated =
        authenticator-Keeps Others-Frame modify-Others
          (λ userid w x w' e. quiet w w' (ground (arith, e)));
    destroyed = destroyed-Others;
  }

  -- Whatever part of its round a handler takes, without a fault: the block of any other handler is
  -- still there afterwards, with its socket.
  pub Turn-spares :
      (w w' : World env) (a : Addr) (blk : ThreadBlock env.Float)
      → Turn env b w w'
      → a ≢ b
      → w.blocks a ≡ some blk
      → (blk' : ThreadBlock env.Float) × (w'.blocks a ≡ some blk') × (blk'.socket ≡ blk.socket)
  Turn-spares w w' a blk t ne e = Turn-Keeps Others-Whole t a blk ne e
