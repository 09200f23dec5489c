-- ===== src/ConnectHandler/System.antt =====
-- The handlers of all connections over one world, in any order: each takes one part of a round of
-- `connection_handler` at a time, and the accept loop adds blocks. Two parts do not
-- overlap: in particular a log-in is one part, with the lookup of the user and the insertion, although no
-- mutex is held over these two in the source (see Locks.Handlers).
use concurrent_server.Base.{
  ℕ, minus_one, ◌≡◌, ◌≢◌, inl, inr, ap, ◌∙◌, sym, Bool, Option, none, some, ok, arith, ◌==◌,
  Bool-cases,
}
use concurrent_server.Text.{Bytes}
use concurrent_server.AddrTable.{Addr}
use concurrent_server.ThreadBlock.{ThreadBlock, create_thread_node, Startup}
use concurrent_server.ConnectHandler.World.{Env, World, with_block, destroy_handlers_block}
use concurrent_server.ConnectHandler.Loop.{read_socket, read_queue, test_cancel}
use concurrent_server.ConnectHandler.Frame.{Whole}
use concurrent_server.ConnectHandler.Frame.Socket.{read_socket-Keeps, read_queue-Keeps}
use concurrent_server.ConnectHandler.Frame.Session.{test_cancel-Keeps}
use concurrent_server.ConnectHandler.Sound.{Sound, HasIds}
use concurrent_server.ConnectHandler.Sound.Leaving.{Stays-Whole}

module _ (env : Env) where
  -- The handler at `b` takes a part of its round that ends without a fault.
  pub data Turn (b : Addr) (w w' : World env) : Type 0 where
    reads : (input : Option Bytes) → read_socket env b input w ≡ ok (tt, w') → Turn b w w'
    serves : read_queue env b w ≡ ok (tt, w') → Turn b w w'
    tests : (going : Bool) → test_cancel env b w ≡ ok (going, w') → Turn b w w'
    exits : destroy_handlers_block env b w ≡ ok (tt, w') → Turn b w w'

  pub data Step (w : World env) : World env → Type 0 where
    turn : (b : Addr) {w' : World env} → b ≢ 0 → Turn b w w' → Step w w'
    -- `make_server` has made a block at an address that was not in use.
    connects :
        (st : Startup) (unset : env.Float) (b sockfd : ℕ) (blk : ThreadBlock env.Float)
        (closed : Bool)
        → w.blocks b ≡ none
        → create_thread_node st unset sockfd ≡ (some blk, closed)
        → Step w (with_block env w b (some blk))

  pub data Reach (w : World env) : World env → Type 0 where
    here : Reach w w
    next : {u v : World env} → Reach w u → Step u v → Reach w v

module _ {env : Env} {b : Addr} {R : World env → World env → Type 0} (W : Whole env b R) where
  -- What holds of all that a handler does holds of each of its turns.
  pub Turn-Keeps : {w w' : World env} → Turn env b w w' → R w w'
  Turn-Keeps {w} {w'} (reads input e) = read_socket-Keeps W input w tt w' e
  Turn-Keeps {w} {w'} (serves e) = read_queue-Keeps W w tt w' e
  Turn-Keeps {w} {w'} (tests going e) = test_cancel-Keeps W w going w' e
  Turn-Keeps {w} {w'} (exits e) = W.destroyed w tt w' e

module _ (env : Env) (ids : HasIds env) where
  connected-Sound :
      (w : World env) (st : Startup) (unset : env.Float) (b sockfd : ℕ)
      (blk : ThreadBlock env.Float) (closed : Bool)
      → create_thread_node st unset sockfd ≡ (some blk, closed)
      → Sound env w
      → Sound env (with_block env w b (some blk))
  unfolding create_thread_node
  connected-Sound w st unset b sockfd blk closed made s =
      let guest : blk.userid ≡ minus_one = ground (arith, made) in
      record {
        entries = s.entries;
        held = s.held;
        real = s.real;
        users = λ a old e. elim (Bool-cases (a == b)) [
          | inl same ↦
              let is : blk ≡ old = ground (arith, same, e) in
              inl (sym (ap (λ k. k.userid) is) ∙ guest)
          | inr other ↦ s.users a old (ground (arith, other, e))
        ];
      }

  Step-Sound : {w w' : World env} → Step env w w' → Sound env w → Sound env w'
  Step-Sound (turn b ne t) s = Turn-Keeps (Stays-Whole env b ne ids) t s
  Step-Sound {w} (connects st unset b sockfd blk closed free made) s =
      connected-Sound w st unset b sockfd blk closed made s

  -- Where every id that `authenticator` reads, from the first column of a row that the database gives for
  -- a name and a password and from the unwritten bytes behind it, is a positive `int`: in every state that
  -- the handlers reach from a sound one, in whatever order they take their turns, one after the other, and
  -- whatever the clients send, the address table is an array of entries in the strict order of
  -- their ids with a positive id and an address each, and every block has no user or a positive id.
  pub Reach-Sound : {w w' : World env} → Reach env w w' → Sound env w → Sound env w'
  Reach-Sound here s = s
  Reach-Sound (next r st) s = Step-Sound st (Reach-Sound r s)
