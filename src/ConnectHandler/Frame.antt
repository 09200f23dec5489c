-- ===== src/ConnectHandler/Frame.antt =====
-- A relation between the world before and after a handler's commands, from the commands that touch
-- the world: it holds of all that `connection_handler` does when it holds of these.
pub use concurrent_server.Base.State.{and_then_parts}
pub mod Cases
pub mod Accounts
pub mod Socket
pub mod Session
use concurrent_server.Base.{
  ℕ, ◌≡◌, refl, Bool, true, false, Option, none, some, List, [], ◌∷◌, ◌++◌, if◌then◌else◌, ℤ,
  Outcome, ok, fault, arith,
}
use concurrent_server.Text.{Bytes}
use concurrent_server.AddrTable.{Addr}
use concurrent_server.ThreadBlock.{ThreadBlock, UserAuthLevel, user_to_exit}
use concurrent_server.ConnectHandler.World.{
  Env, World, Cmd, pure, and_then, ◌>>=◌, lift, get_block, get_packet, modify_block, with_block,
  destroy_packet, send_msg_dontwait, run_query, rows, log_errors, cancel_self, set_auth, find_user,
  enqueue_to, receive_packet, destroy_queue, destroy_thread_node, destroy_handlers_block,
}
use concurrent_server.ConnectHandler.Account.{log_in, authenticator}

module _ (env : Env) where
  -- The relation holds of each run of the command that ends without a fault.
  abbrev pub Keeps : (World env → World env → Type 0) → {A : Type 0} → Cmd env A → Type 0
  Keeps R {A} c = (w : World env) (a : A) (w' : World env) → c w ≡ ok (a, w') → R w w'

  -- A change of a block that leaves its socket and its user as they are.
  abbrev pub IsInner : (ThreadBlock env.Float → ThreadBlock env.Float) → Type 0
  IsInner f =
      (blk : ThreadBlock env.Float) → ((f blk).socket ≡ blk.socket) × ((f blk).userid ≡ blk.userid)

  -- What the handler at `b` does to the world, other than log-ins and its clean-up.
  pub record Frame (b : Addr) (R : World env → World env → Type 0) : Type 0 where
    pub trans : (u v w : World env) → R u v → R v w → R u w
    pub quiet :
        (w w' : World env) → w'.blocks ≡ w.blocks → w'.table ≡ w.table → w'.sent ≡ w.sent → R w w'
    pub modify :
        (a : Addr) (f : ThreadBlock env.Float → ThreadBlock env.Float)
        → IsInner f
        → Keeps R (modify_block env a f)
    pub send : (m : Bytes) → Keeps R (send_msg_dontwait env b m)
    pub free_block :
        (k : List ℕ)
        → Keeps R (λ w. ok (tt, record (with_block env w b none) { closed = w.closed ++ k }))

  -- With these too it is all that the handler does.
  pub record Whole (b : Addr) (R : World env → World env → Type 0) : Type 0 where
    pub frame : Frame b R
    pub authenticated : (name passwd : Bytes) → Keeps R (authenticator env b name passwd)
    pub destroyed : Keeps R (destroy_handlers_block env b)

module _ {env : Env} {b : Addr} {R : World env → World env → Type 0} (F : Frame env b R) where
  pub bind-Keeps :
      {A B : Type 0} {c : Cmd env A} {f : A → Cmd env B}
      → Keeps env R c
      → ((a : A) → Keeps env R (f a))
      → Keeps env R (c >>= f)
  bind-Keeps {A} {B} {c} {f} kc kf w x w' e =
      let (a, w1, p, q) = and_then_parts (c w) f (x, w') e in
      F.trans w w1 w' (kc w a w1 p) (kf a w1 x w' q)

  pub if-Keeps :
      {A : Type 0} (t : Bool) {c d : Cmd env A}
      → Keeps env R c
      → Keeps env R d
      → Keeps env R (if t then c else d)
  if-Keeps true kc kd = kc
  if-Keeps false kc kd = kd

  pub fault-Keeps : {A : Type 0} → Keeps env R {A = A} (λ _. fault)
  fault-Keeps w a w' e = absurd (cc e)

  -- The cases of a command that looks at an option.
  pub option-Keeps :
      {A X : Type 0} (r : Option X) {c : Cmd env A} {f : X → Cmd env A}
      → Keeps env R c
      → ((x : X) → Keeps env R (f x))
      → Keeps env R (elim r [ none ↦ c | some x ↦ f x ])
  option-Keeps none kc kf = kc
  option-Keeps (some x) kc kf = kf x

  pub pure-Keeps : {A : Type 0} (x : A) → Keeps env R (pure {S = World env} x)
  pure-Keeps x w a w' e = F.quiet w w' (ground (arith, e)) (ground (arith, e)) (ground (arith, e))

  pub lift-Keeps : {A : Type 0} (r : Outcome A) → Keeps env R (lift {S = World env} r)
  lift-Keeps r w a w' e = F.quiet w w' (ground (arith, e)) (ground (arith, e)) (ground (arith, e))

  pub get_block-Keeps : (a : Addr) → Keeps env R (get_block env a)
  unfolding get_block
  get_block-Keeps a w x w' e =
      F.quiet w w' (ground (arith, e)) (ground (arith, e)) (ground (arith, e))

  pub get_packet-Keeps : (p : Addr) → Keeps env R (get_packet env p)
  unfolding get_packet
  get_packet-Keeps p w x w' e =
      F.quiet w w' (ground (arith, e)) (ground (arith, e)) (ground (arith, e))

  pub rows-Keeps : Keeps env R (rows env)
  unfolding rows
  rows-Keeps w x w' e = F.quiet w w' (ground (arith, e)) (ground (arith, e)) (ground (arith, e))

  pub find_user-Keeps : (id : ℤ) → Keeps env R (find_user env id)
  unfolding find_user
  find_user-Keeps id w x w' e =
      F.quiet w w' (ground (arith, e)) (ground (arith, e)) (ground (arith, e))

  pub destroy_packet-Keeps : (p : Addr) → Keeps env R (destroy_packet env p)
  unfolding destroy_packet get_packet
  destroy_packet-Keeps p w x w' e =
      F.quiet w w' (ground (arith, e)) (ground (arith, e)) (ground (arith, e))

  pub run_query-Keeps : (q : Bytes) → Keeps env R (run_query env q)
  unfolding run_query
  run_query-Keeps q w x w' e =
      F.quiet w w' (ground (arith, e)) (ground (arith, e)) (ground (arith, e))

  pub log_errors-Keeps : (m : Bytes) → Keeps env R (log_errors env m)
  unfolding log_errors
  log_errors-Keeps m w x w' e =
      F.quiet w w' (ground (arith, e)) (ground (arith, e)) (ground (arith, e))

  pub receive_packet-Keeps : (str : Bytes) → Keeps env R (receive_packet env str)
  unfolding receive_packet
  receive_packet-Keeps str w x w' e =
      F.quiet w w' (ground (arith, e)) (ground (arith, e)) (ground (arith, e))

  pub modify_block-Keeps :
      (a : Addr) (f : ThreadBlock env.Float → ThreadBlock env.Float)
      → IsInner env f
      → Keeps env R (modify_block env a f)
  modify_block-Keeps = F.modify

  pub send_msg_dontwait-Keeps : (m : Bytes) → Keeps env R (send_msg_dontwait env b m)
  send_msg_dontwait-Keeps = F.send

  pub set_auth-Keeps : (a : Addr) (level : UserAuthLevel) → Keeps env R (set_auth env a level)
  unfolding set_auth
  set_auth-Keeps a level = F.modify a (λ blk. record blk { auth = level }) (λ blk. (refl, refl))

  pub cancel_self-Keeps : (a : Addr) → Keeps env R (cancel_self env a)
  unfolding cancel_self
  cancel_self-Keeps a = F.modify a (λ blk. record blk { cancelled = true }) (λ blk. (refl, refl))

  pub enqueue_to-Keeps : (a p : Addr) → Keeps env R (enqueue_to env a p)
  unfolding enqueue_to
  enqueue_to-Keeps a p =
      F.modify a (λ blk. record blk { in_queue = blk.in_queue ++ p ∷ [] }) (λ blk. (refl, refl))

  destroy_queue-Keeps : (ps : List Addr) → Keeps env R (destroy_queue env ps)
  unfolding destroy_queue
  destroy_queue-Keeps [] = pure-Keeps tt
  destroy_queue-Keeps (p ∷ ps) = bind-Keeps (destroy_packet-Keeps p) (λ _. destroy_queue-Keeps ps)

  pub destroy_thread_node-Keeps : Keeps env R (destroy_thread_node env b)
  unfolding destroy_thread_node
  destroy_thread_node-Keeps = bind-Keeps (get_block-Keeps b) (λ blk.
      bind-Keeps (set_auth-Keeps b user_to_exit)
        (λ _. bind-Keeps (destroy_queue-Keeps blk.in_queue) (λ _. F.free_block (blk.socket ∷ []))))
