-- ===== src/ConnectHandler/Sound.antt =====
-- The invariant of the address table and of the user ids in the blocks, under all that a handler does.
pub mod LogIn
pub mod Leaving
use mathlib.Core.Path.{subst}
use concurrent_server.Base.{
  ℕ, zero, suc, ℤ, pos, negsuc, minus_one, ◌+◌, ◌%◌, ◌^◌, ◌<◌, ◌≤◌, ◌≡◌, ◌≢◌, ◌⊎◌, inl, inr, refl,
  ap, ◌∙◌, sym, Bool, true, false, Option, none, some, List, [], ◌∷◌, ◌++◌, ◌==◌, if◌then◌else◌,
  Outcome, ok, fault, arith, to_unsigned, to_int, length, drop, All, ltb, leb, Bool-cases,
}
use concurrent_server.Text.{Bytes, codes, atoi, strcpy}
use concurrent_server.AddrTable.{
  Addr, Entry, entry, Table, remove_from_addr_table, insert_in_addr_table, get_addr_from_addr_table,
  binary_search, max_addr_table_size,
}
use concurrent_server.AddrTable.Spec.{Holds, lookup, insert, erase, Absent}
use concurrent_server.AddrTable.Insert.{insert-full}
use concurrent_server.AddrTable.Limits.{insert-kept, remove-kept, remove-minus_one}
use concurrent_server.AddrTable.Search.{get-lookup}
use concurrent_server.ThreadBlock.{ThreadBlock, user_auth, user_to_exit, name_buf_size}
use concurrent_server.ConnectHandler.World.{
  Env, World, Cmd, pure, and_then, ◌>>=◌, ◌>>◌, lift, get_block, modify_block, with_block,
  send_msg_dontwait, destroy_handlers_block, destroy_thread_node, find_user, set_auth, rows,
  run_query, log_errors, cancel_self, destroy_queue,
}
use concurrent_server.ConnectHandler.Account.{
  mysql_query_buff, log_in, new_user, row_userid, fetched, authenticator, query_or_destroy,
  select_user_query,
}
use concurrent_server.ConnectHandler.Frame.{
  Keeps, Frame, Whole, and_then_parts, bind-Keeps, if-Keeps, fault-Keeps, pure-Keeps,
  set_auth-Keeps, log_errors-Keeps, get_block-Keeps, destroy_thread_node-Keeps,
}
use concurrent_server.ConnectHandler.Isolation.{get_block_found}

-- The ids of users are the positive values of an `int`.
abbrev pub IsId : ℤ → Type 0
IsId z = (0 < to_unsigned z) × (to_unsigned z < 2 ^ 31)

abbrev pub IsReal : List Entry → Type 0
IsReal = All (λ e. e.addr_ ≢ 0)

-- Among entries with addresses, only an absent id has none.
lookup-zero-Absent : (id : ℕ) (xs : List Entry) → IsReal xs → lookup id xs ≡ 0 → Absent id xs
unfolding lookup
lookup-zero-Absent id [] r e = tt
lookup-zero-Absent id (x ∷ xs) r e = ground (arith, r.0, e, lookup-zero-Absent id xs r.1)

insert-IsReal : (id a : ℕ) (xs : List Entry) → a ≢ 0 → IsReal xs → IsReal (insert id a xs)
unfolding insert
insert-IsReal id a [] ne r = (ne, tt)
insert-IsReal id a (x ∷ xs) ne r = ground (arith, ne, r.0, r.1, insert-IsReal id a xs ne r.1)

erase-IsReal : (id : ℕ) (xs : List Entry) → IsReal xs → IsReal (erase id xs)
unfolding erase
erase-IsReal id [] r = tt
erase-IsReal id (x ∷ xs) r = ground (arith, r.0, r.1, erase-IsReal id xs r.1)

module _ (env : Env) where
  -- The table holds entries in the strict order of their ids, each with an address; and a block has
  -- either no user, that is -1, or an id.
  pub record Sound (w : World env) : Type 0 where
    pub entries : List Entry
    pub held : Holds w.table entries
    pub real : IsReal entries
    pub users :
        (a : Addr) (blk : ThreadBlock env.Float)
        → w.blocks a ≡ some blk
        → (blk.userid ≡ minus_one) ⊎ IsId blk.userid

  -- What the read of the id from the first column gives.
  abbrev pub IdRows : env.Db → List (List Bytes) → Type 0
  IdRows db =
      All
        (λ row. elim row [ [] ↦ Unit {0} | id ∷ _ ↦ IsId (atoi (id ++ env.behind db (length id))) ])

  -- What `authenticator` reads as the id of a user, from the row and the unwritten bytes behind it, is a
  -- positive `int`, as an AUTO_INCREMENT INTEGER is.
  abbrev pub HasIds : Type 0
  HasIds =
      (name passwd : Bytes) (db db' : env.Db) (found : List (List Bytes))
      → env.mysql_query (select_user_query env (codes "userid, username") name passwd) db
        ≡ (true, db')
      → env.result db' ≡ some found
      → IdRows db' found

  abbrev pub Stays : World env → World env → Type 0
  Stays w w' = Sound w → Sound w'

  quiet : (w w' : World env) → w'.blocks ≡ w.blocks → w'.table ≡ w.table → Stays w w'
  quiet w w' p q s = record {
    entries = s.entries;
    held = subst (λ t. Holds t s.entries) (sym q) s.held;
    real = s.real;
    users = λ a blk e. s.users a blk (sym (ap (λ f. f a) p) ∙ e);
  }

  -- A write of a block that leaves the table, with the user it has afterwards.
  put-Sound :
      (w w' : World env) (a : Addr) (blk : ThreadBlock env.Float)
      → w'.table ≡ w.table
      → w'.blocks ≡ (with_block env w a (some blk)).blocks
      → ((blk.userid ≡ minus_one) ⊎ IsId blk.userid)
      → Stays w w'
  put-Sound w w' a blk p q u s = record {
    entries = s.entries;
    held = subst (λ t. Holds t s.entries) (sym p) s.held;
    real = s.real;
    users = λ c old e. elim (Bool-cases (c == a)) [
      | inl same ↦
          let now : blk ≡ old = ground (arith, same, ap (λ f. f c) q, e) in
          subst (λ k. (k.userid ≡ minus_one) ⊎ IsId k.userid) now u
      | inr other ↦ s.users c old (ground (arith, other, ap (λ f. f c) q, e))
    ];
  }

  modify-Stays :
      (a : Addr) (f : ThreadBlock env.Float → ThreadBlock env.Float)
      → ((blk : ThreadBlock env.Float)
          → ((blk.userid ≡ minus_one) ⊎ IsId blk.userid)
          → (((f blk).userid ≡ minus_one) ⊎ IsId (f blk).userid))
      → Keeps env Stays (modify_block env a f)
  unfolding modify_block
  modify-Stays a f kept w x w' e s =
      let (blk0, w1, p, q) = and_then_parts (get_block env a w) _ (x, w') e in
      let (found, same) = get_block_found env a w w1 blk0 p in
      put-Sound w w' a (f blk0) (ground (arith, same, q)) (ground (arith, same, q))
        (kept blk0 (s.users a blk0 found)) s

  Stays-Frame : (b : Addr) → Frame env b Stays
  unfolding send_msg_dontwait
  Stays-Frame b = record {
    trans = λ u v w l m s. m (l s);
    quiet = λ w w' p q _. quiet w w' p q;
    modify = λ a f inner.
        modify-Stays a f (λ blk u. subst (λ z. (z ≡ minus_one) ⊎ IsId z) (sym (inner blk).1) u);
    send = λ m w x w' e.
        let (blk0, w1, p, q) = and_then_parts (get_block env b w) _ (x, w') e in
        let (found, same) = get_block_found env b w w1 blk0 p in
        quiet w w' (ground (arith, same, q)) (ground (arith, same, q));
    free_block = λ k w x w' e s. record {
      entries = s.entries;
      held = subst (λ t. Holds t s.entries) (ground (arith, e)) s.held;
      real = s.real;
      users = λ a blk p. s.users a blk (ground (arith, e, p));
    };
  }

  -- A modification leaves the table.
  modify-table :
      (a : Addr) (f : ThreadBlock env.Float → ThreadBlock env.Float)
      → Keeps env (λ w w'. w'.table ≡ w.table) (modify_block env a f)
  unfolding modify_block get_block
  modify-table a f w x w' e = ground (arith, e)
