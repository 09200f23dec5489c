-- ===== src/ConnectHandler/Sound/LogIn.antt =====
-- A log-in keeps the invariant.
use mathlib.Core.Path.{subst}
use concurrent_server.Base.{
  ℤ, pos, minus_one, ◌+◌, ◌%◌, ◌^◌, ◌≡◌, ◌≢◌, inl, inr, refl, ap, ◌∙◌, sym, Bool, true, none, some,
  List, [], ◌∷◌, ◌++◌, ◌==◌, if◌then◌else◌, ok, fault, arith, to_unsigned, length, drop, ltb,
  Bool-cases,
}
use concurrent_server.Text.{Bytes, codes, atoi, strcpy}
use concurrent_server.AddrTable.{
  Addr, insert_in_addr_table, get_addr_from_addr_table, max_addr_table_size,
}
use concurrent_server.AddrTable.Spec.{insert, Absent}
use concurrent_server.AddrTable.Insert.{insert-full}
use concurrent_server.AddrTable.Limits.{insert-kept}
use concurrent_server.AddrTable.Search.{get-lookup}
use concurrent_server.ThreadBlock.{user_auth, user_to_exit, name_buf_size}
use concurrent_server.ConnectHandler.World.{
  Env, World, Cmd, ◌>>◌, lift, get_block, modify_block, destroy_thread_node, find_user, set_auth,
  rows, run_query, log_errors, cancel_self, destroy_queue,
}
use concurrent_server.ConnectHandler.Account.{
  mysql_query_buff, log_in, new_user, row_userid, fetched, authenticator, query_or_destroy,
  select_user_query,
}
use concurrent_server.ConnectHandler.Frame.{
  Keeps, and_then_parts, bind-Keeps, fault-Keeps, pure-Keeps, set_auth-Keeps, log_errors-Keeps,
}
use concurrent_server.ConnectHandler.Isolation.{get_block_found}
use concurrent_server.ConnectHandler.Sound.{
  IsId, Sound, IdRows, HasIds, Stays, quiet, modify-Stays, Stays-Frame, modify-table,
  lookup-zero-Absent, insert-IsReal,
}

module _ (env : Env) (b : Addr) (ne : b ≢ 0) where
  -- The insertion of `log_in`.
  abbrev enter_table : ℤ → Cmd env (Unit {0})
  enter_table z w = elim (insert_in_addr_table w.table (to_unsigned z) b) [
    | fault ↦ fault
    | ok t ↦ ok (tt, record w { table = t })
  ]

  -- The entry of a user who has none, in a table that is sound.
  enter-Sound :
      (w w' : World env) (z : ℤ) (x : Unit {0})
      → Sound env w
      → IsId z
      → get_addr_from_addr_table w.table (to_unsigned z) ≡ ok 0
      → enter_table z w ≡ ok (x, w')
      → Sound env w'
  enter-Sound w w' z x s good gone e =
      elim (Bool-cases (ltb (length s.entries) max_addr_table_size)) [
        | inl room ↦
            let (k, top) = good in
            let out : Absent (to_unsigned z) s.entries =
              lookup-zero-Absent (to_unsigned z) s.entries s.real
                (ground (arith, gone, get-lookup s.held (to_unsigned z) k top (ground arith))) in
            let run : insert_in_addr_table w.table (to_unsigned z) b ≡ ok w'.table =
              ground (arith, e) in
            let same : w'.blocks ≡ w.blocks = ground (arith, e) in
            record {
              entries = insert (to_unsigned z) b s.entries;
              held = insert-kept s.held (to_unsigned z) b w'.table k out run;
              real = insert-IsReal (to_unsigned z) b s.entries ne s.real;
              users = λ a blk at_a. s.users a blk (sym (ap (λ f. f a) same) ∙ at_a);
            }
        | inr full ↦
            let past = insert-full s.held (to_unsigned z) b (ground arith) in
            absurd (ground (arith, e, past))
      ]

  abbrev copy_name : Bytes → Cmd env (Unit {0})
  copy_name username =
      if ltb name_buf_size (length username)
      then (λ _. fault)
      else modify_block env b
          (λ blk. record blk { username = username ++ drop (length username) blk.username })

  copy_name-Sound :
      (username : Bytes)
      → Keeps env (λ w w'. Sound env w → Sound env w' × (w'.table ≡ w.table)) (copy_name username)
  copy_name-Sound username w x w' e s = elim (Bool-cases (ltb name_buf_size (length username))) [
    | inl long ↦ absurd (ground (arith, long, e))
    | inr fits ↦
        let run : modify_block env b _ w ≡ ok (x, w') = ground (arith, fits, e) in
        (
          modify-Stays env b
              (λ blk. record blk { username = username ++ drop (length username) blk.username })
              (λ blk u. u) w x w' run s,
          modify-table env b _ w x w' run,
        )
  ]

  new_user-Sound :
      (w w' : World env) (z x : ℤ) (username : Bytes)
      → Sound env w
      → IsId z
      → get_addr_from_addr_table w.table (to_unsigned z) ≡ ok 0
      → new_user env b z username w ≡ ok (x, w')
      → Sound env w'
  unfolding new_user
  new_user-Sound w w' z x username s good gone e =
      let F = Stays-Frame env b in
      let (t1, w1, p1, r1) = and_then_parts (copy_name username w) _ (x, w') e in
      let (s1, table1) = copy_name-Sound username w t1 w1 p1 s in
      let w2 = record w1 { number_of_users = (w1.number_of_users + 1) % 2 ^ 32 } in
      let s2 : Sound env w2 = quiet env w1 w2 refl refl s1 in
      let (t3, w3, p3, r3) = and_then_parts (enter_table z w2) _ (x, w') r1 in
      let s3 : Sound env w3 = enter-Sound w2 w3 z t3 s2 good (rw table1 gone) p3 in
      bind-Keeps F (set_auth-Keeps F b user_auth) (λ _. pure-Keeps F (pos 0)) w3 x w' r3 s3

  log_in-Stays :
      (id username : Bytes) (w : World env) (x : ℤ) (w' : World env)
      → IsId (atoi (id ++ env.behind w.db (length id)))
      → log_in env b id username w ≡ ok (x, w')
      → Stays env w w'
  unfolding log_in row_userid find_user
  log_in-Stays id username w x w' good e s =
      let z : ℤ = atoi (id ++ env.behind w.db (length id)) in
      let (z1, w1, p1, r1) = and_then_parts (row_userid env id w) _ (x, w') e in
      let same1 : w1 ≡ w = ground (arith, p1) in
      let good1 : IsId z1 = subst IsId (ground (arith, p1)) good in
      let (_, w2, p2, r2) = and_then_parts (modify_block env b _ w1) _ (x, w') r1 in
      let s2 : Sound env w2 =
        modify-Stays env b (λ blk. record blk { userid = z1 }) (λ blk _. inr good1) w1 tt w2 p2
          (subst (Sound env) (sym same1) s) in
      let (node, w3, p3, r3) = and_then_parts (find_user env z1 w2) _ (x, w') r2 in
      let same3 : w3 ≡ w2 = ground (arith, p3) in
      let s3 : Sound env w3 = subst (Sound env) (sym same3) s2 in
      elim (Bool-cases (node == 0)) [
        | inl none_yet ↦
            new_user-Sound w3 w' z1 x username s3 good1 (ground (arith, p3, none_yet))
              (ground (arith, none_yet, r3))
        | inr other ↦ subst (Sound env) (ground (arith, other, r3)) s3
      ]

  -- The rows that the query for the name and the password gave.
  fetched-Stays :
      (found : List (List Bytes)) (w : World env) (x : ℤ) (w' : World env)
      → IdRows env w.db found
      → fetched env b found w ≡ ok (x, w')
      → Stays env w w'
  unfolding fetched
  fetched-Stays [] w x w' ids =
      let F = Stays-Frame env b in
      bind-Keeps F (log_errors-Keeps F _) (λ _. pure-Keeps F minus_one) w x w'
  fetched-Stays ([] ∷ _) w x w' ids = fault-Keeps (Stays-Frame env b) w x w'
  fetched-Stays ((_ ∷ []) ∷ _) w x w' ids = fault-Keeps (Stays-Frame env b) w x w'
  fetched-Stays ((id ∷ username ∷ _) ∷ _) w x w' ids = log_in-Stays id username w x w' ids.0

  -- A block that was destroyed is not there to be cancelled.
  cancel-gone : (w : World env) → w.blocks b ≡ none → cancel_self env b w ≡ fault
  unfolding cancel_self modify_block get_block
  cancel-gone w gone = ground (arith, gone)

  destroyed-gone : Keeps env (λ w w'. w'.blocks b ≡ none) (destroy_thread_node env b)
  unfolding destroy_thread_node
  destroyed-gone w x w' e =
      let (blk, w1, p1, r1) = and_then_parts (get_block env b w) _ (x, w') e in
      let (t2, w2, p2, r2) = and_then_parts (set_auth env b user_to_exit w1) _ (x, w') r1 in
      let (t3, w3, p3, r3) = and_then_parts (destroy_queue env blk.in_queue w2) _ (x, w') r2 in
      ground (arith, r3)

  abbrev give_up : Bytes → Cmd env (Unit {0})
  give_up why = do log_errors env why; destroy_thread_node env b; cancel_self env b

  give_up-faults : (why : Bytes) (x : Unit {0}) (w w' : World env) → give_up why w ≢ ok (x, w')
  give_up-faults why x w w' e =
      let (t1, w1, p1, r1) = and_then_parts (log_errors env why w) _ (x, w') e in
      let (t2, w2, p2, r2) = and_then_parts (destroy_thread_node env b w1) _ (x, w') r1 in
      absurd (cc (cancel-gone w2 (destroyed-gone w1 t2 w2 p2), r2))

  copied :
      (q : Bytes) (w : World env) (q1 : Bytes) (w1 : World env)
      → lift (strcpy mysql_query_buff q) w ≡ ok (q1, w1)
      → (q1 ≡ q) × (w1 ≡ w)
  unfolding strcpy
  copied q w q1 w1 e = (ground (arith, e), ground (arith, e))

  run_query-done :
      (q : Bytes) (w : World env) (done : Bool) (w' : World env)
      → run_query env q w ≡ ok (done, w')
      → (env.mysql_query q w.db ≡ (done, w'.db)) × (w'.blocks ≡ w.blocks) × (w'.table ≡ w.table)
  unfolding run_query
  run_query-done q w done w' e = (ground (arith, e), ground (arith, e), ground (arith, e))

  -- A query that ends without a fault was executed.
  query_or_destroy-done :
      (q : Bytes)
      → Keeps env
          (λ w w'.
            (env.mysql_query q w.db ≡ (true, w'.db))
            × (w'.blocks ≡ w.blocks)
            × (w'.table ≡ w.table))
          (query_or_destroy env b q)
  unfolding query_or_destroy
  query_or_destroy-done q w x w' e =
      let (q1, w1, p1, r1) = and_then_parts (lift (strcpy mysql_query_buff q) w) _ (x, w') e in
      let (is_q, is_w) = copied q w q1 w1 p1 in
      let (done, w2, p2, r2) = and_then_parts (run_query env q1 w1) _ (x, w') r1 in
      let (asked, blocks, table) = run_query-done q1 w1 done w2 p2 in
      elim (Bool-cases done) [
        | inl good ↦
            let end : w' ≡ w2 = ground (arith, r2, good) in
            (
              rw (end, ← is_q, ← is_w, ← good) asked,
              rw (end, ← is_w) blocks,
              rw (end, ← is_w) table,
            )
        | inr bad ↦ absurd (
            give_up-faults (codes "mysql query execution failed") x w2 w' (ground (arith, bad, r2)))
      ]

  pub authenticated-Stays :
      HasIds env → (name passwd : Bytes) → Keeps env (Stays env) (authenticator env b name passwd)
  unfolding authenticator rows
  authenticated-Stays ids name passwd w x w' e s =
      let q = select_user_query env (codes "userid, username") name passwd in
      let (t1, w1, p1, r1) = and_then_parts (query_or_destroy env b q w) _ (x, w') e in
      let (asked, blocks1, table1) = query_or_destroy-done q w t1 w1 p1 in
      let (blk, w2, p2, r2) = and_then_parts (get_block env b w1) _ (x, w') r1 in
      let (_, same2) = get_block_found env b w1 w2 blk p2 in
      let (found, w3, p3, r3) = and_then_parts (rows env w2) _ (x, w') r2 in
      let same3 : w3 ≡ w1 = ground (arith, p3, same2) in
      let answer : env.result w1.db ≡ some found = ground (arith, p3, same2) in
      let read : IdRows env w3.db found =
        subst (λ v. IdRows env v.db found) (sym same3)
          (ids name passwd w.db w1.db found asked answer) in
      fetched-Stays found w3 x w' read r3
        (subst (Sound env) (sym same3) (quiet env w w1 blocks1 table1 s))
