-- ===== src/ConnectHandler/Sound/Leaving.antt =====
-- The end of a handler keeps the invariant, and so all that it does.
use mathlib.Core.Path.{subst}
use concurrent_server.Base.{
  ℤ, minus_one, ◌≡◌, ◌≢◌, ◌⊎◌, inl, inr, ap, ◌∙◌, sym, some, Outcome, ok, fault, arith, to_unsigned,
}
use concurrent_server.AddrTable.{Addr, Table, remove_from_addr_table}
use concurrent_server.AddrTable.Spec.{erase}
use concurrent_server.AddrTable.Limits.{remove-kept, remove-minus_one}
use concurrent_server.ThreadBlock.{ThreadBlock}
use concurrent_server.ConnectHandler.World.{Env, World, Cmd, get_block, destroy_handlers_block}
use concurrent_server.ConnectHandler.Frame.{Keeps, Whole, and_then_parts, destroy_thread_node-Keeps}
use concurrent_server.ConnectHandler.Isolation.{get_block_found}
use concurrent_server.ConnectHandler.Sound.{
  IsId, Sound, HasIds, Stays, quiet, Stays-Frame, erase-IsReal,
}
use concurrent_server.ConnectHandler.Sound.LogIn.{authenticated-Stays}

module _ (env : Env) (b : Addr) (ne : b ≢ 0) where
  -- The removal of `destroy_handlers_block`.
  abbrev left_by : Outcome (Addr × Table) → Cmd env (Unit {0})
  left_by r w = elim r [ fault ↦ fault | ok (hold, t) ↦ ok (tt, record w { table = t }) ]

  abbrev leave_table : ℤ → Cmd env (Unit {0})
  leave_table z w = left_by (remove_from_addr_table w.table (to_unsigned z)) w

  left_parts :
      (w w' : World env) (r : Outcome (Addr × Table)) (x : Unit {0})
      → left_by r w ≡ ok (x, w')
      → (hold : Addr) × (r ≡ ok (hold, w'.table))
  left_parts w w' fault x e = absurd (cc e)
  left_parts w w' (ok (hold, t)) x e = (hold, ground (arith, e))

  leave_run :
      (w w' : World env) (z : ℤ) (x : Unit {0})
      → leave_table z w ≡ ok (x, w')
      → (hold : Addr) × (remove_from_addr_table w.table (to_unsigned z) ≡ ok (hold, w'.table))
  leave_run w w' z x e = left_parts w w' (remove_from_addr_table w.table (to_unsigned z)) x e

  -- The clean-up, which takes the user of the block out of the table.
  leave-Sound :
      (w w' : World env) (z : ℤ) (x : Unit {0})
      → Sound env w
      → (z ≡ minus_one) ⊎ IsId z
      → leave_table z w ≡ ok (x, w')
      → Sound env w'
  leave-Sound w w' z x s (inl guest) e =
      let run = remove-minus_one w.table in
      let idle : leave_table minus_one w ≡ ok (x, w') =
        subst (λ y. leave_table y w ≡ ok (x, w')) guest e in
      quiet env w w' (ground (arith, idle, run)) (ground (arith, idle, run)) s
  leave-Sound w w' z x s (inr good) e =
      let (hold, run) = leave_run w w' z x e in
      let blocks : w'.blocks ≡ w.blocks = ground (arith, e) in
      let users : (a : Addr) (blk : ThreadBlock env.Float)
          → w'.blocks a ≡ some blk
          → (blk.userid ≡ minus_one) ⊎ IsId blk.userid =
        λ a blk at_a. s.users a blk (sym (ap (λ f. f a) blocks) ∙ at_a) in
      elim (remove-kept s.held (to_unsigned z) hold w'.table good.0 good.1 run) [
        | inl same ↦ record { entries = s.entries; held = same; real = s.real; users = users }
        | inr less ↦ record {
          entries = erase (to_unsigned z) s.entries;
          held = less;
          real = erase-IsReal (to_unsigned z) s.entries s.real;
          users = users;
        }
      ]

  destroyed-Stays : Keeps env (Stays env) (destroy_handlers_block env b)
  unfolding destroy_handlers_block
  destroyed-Stays w x w' e s =
      let F = Stays-Frame env b in
      let (blk, w1, p1, r1) = and_then_parts (get_block env b w) _ (x, w') e in
      let (found, same) = get_block_found env b w w1 blk p1 in
      let (t2, w2, p2, r2) = and_then_parts (leave_table blk.userid w1) _ (x, w') r1 in
      let s2 : Sound env w2 =
        leave-Sound w1 w2 blk.userid t2 (subst (Sound env) (sym same) s) (s.users b blk found) p2 in
      destroy_thread_node-Keeps F w2 x w' r2 s2

  pub Stays-Whole : HasIds env → Whole env b (Stays env)
  Stays-Whole ids = record {
    frame = Stays-Frame env b;
    authenticated = authenticated-Stays env b ne ids;
    destroyed = destroyed-Stays;
  }
