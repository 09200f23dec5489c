-- ===== src/ConnectHandler/Delivery.antt =====
-- What becomes of a message: from the sender's handler to the receiver's, or to the database.
use concurrent_server.Base.{
  ◌∙◌, Bool-cases, inl, inr, if◌then◌else◌, replicate, ℕ, ◌≡◌, ◌≢◌, refl, ap, true, false, none,
  some, List, [], ◌∷◌, ◌++◌, pos, eqb, to_unsigned, ok, arith, append_assoc, append-nil,
}
use concurrent_server.Text.{Bytes, codes, print_int, snprintf}
use concurrent_server.Text.Printf.{print_from, printf}
use concurrent_server.AddrTable.{Addr, get_addr_from_addr_table}
use concurrent_server.Packets.{Packet, text, shown, frame, msg_packet, max_packet_size}
use concurrent_server.ThreadBlock.{ThreadBlock, user_auth}
use concurrent_server.ConnectHandler.Account.{mysql_query_buff}
use concurrent_server.ConnectHandler.Messages.{
  not_yet_authenticated_exit, deliver, route_message, query_or_log, insert_message_query, send_rows,
  stored_msg,
}
use concurrent_server.ConnectHandler.Loop.{interpret_packets, dispatch, serve, read_queue}
use concurrent_server.ConnectHandler.World.{
  Env, World, get_block, get_packet, modify_block, with_block, with_packet, find_user, enqueue_to,
  destroy_packet, send_msg_dontwait, ◌>>◌, run_query, log_errors,
}

-- The message as the receiver gets it.
abbrev pub msg_text : Packet → Bytes → Bytes
msg_text pk s =
    snprintf max_packet_size (frame (pos msg_packet) pk.sender_id pk.receiver_id pk.tmsg s)

module _ (env : Env) (w : World env) where
  -- The handler at `a` serves a user who is logged in; `p` holds a packet for another user.
  pub record IsSending (a p : Addr) (blk : ThreadBlock env.Float) (pk : Packet) : Type 0 where
    pub sender : w.blocks a ≡ some blk
    pub auth : blk.auth ≡ user_auth
    pub packet : w.packets p ≡ some pk
    pub other : eqb pk.receiver_id blk.userid ≡ false

  -- A message to a user who is online is put behind the packets that wait for that user; nothing else
  -- changes.
  pub route_message-online :
      (a p n : Addr) (blk node : ThreadBlock env.Float) (pk : Packet)
      → IsSending a p blk pk
      → get_addr_from_addr_table w.table (to_unsigned pk.receiver_id) ≡ ok n
      → n ≢ 0
      → w.blocks n ≡ some node
      → route_message env a p w
        ≡ ok (tt, with_block env w n (some (record node { in_queue = node.in_queue ++ p ∷ [] })))
  unfolding route_message deliver not_yet_authenticated_exit get_block get_packet find_user
      enqueue_to
  route_message-online a p n blk node pk h found ne at_n =
      ground (arith, h.sender, h.auth, h.packet, h.other, found, ne, at_n)

  -- The query that stores a message, by its format; 499 bytes of it fit its buffer.
  abbrev pub storing : Packet → Bytes → Bytes
  storing pk s = snprintf mysql_query_buff (
      printf
        (codes
            "INSERT INTO %s.messages(sender_id, receiver_id, time_sent, time_received, msg_type, message) "
          ++ (replicate 8 9 ++ codes "VALUES(%d, '%d', '%ld', '%ld', '%d', '%s' )"))
        (env.database_name
          ∷ print_int pk.sender_id
          ∷ print_int pk.receiver_id
          ∷ env.now w.db
          ∷ codes "-1"
          ∷ print_int pk.tmsg
          ∷ s
          ∷ []))

  stores :
      (pk : Packet) (s : Bytes)
      → snprintf mysql_query_buff (insert_message_query env (env.now w.db) pk s) ≡ storing pk s
  unfolding print_from
  stores pk s = refl

  one_query :
      (q : Bytes)
      → query_or_log env q w
        ≡ ok (
          tt,
          record w {
            db = (env.mysql_query q w.db).1;
            logged =
                if (env.mysql_query q w.db).0
                then w.logged
                else w.logged ++ codes "mysql query execution failed" ∷ [];
          },
        )
  unfolding query_or_log run_query log_errors
  one_query q = elim (Bool-cases (env.mysql_query q w.db).0) [
    | inl done ↦ ground (arith, done)
    | inr failed ↦ ground (arith, failed)
  ]

  route-stores :
      (a p : Addr) (blk : ThreadBlock env.Float) (pk : Packet) (s : Bytes)
      → IsSending a p blk pk
      → pk.msg ≡ text s
      → get_addr_from_addr_table w.table (to_unsigned pk.receiver_id) ≡ ok 0
      → route_message env a p w ≡ query_or_log env (storing pk s) w
  unfolding route_message deliver not_yet_authenticated_exit get_block get_packet find_user shown
  route-stores a p blk pk s h m gone =
      ground (arith, h.sender, h.auth, h.packet, h.other, m, gone)
      ∙ ap (λ q. query_or_log env q w) (stores pk s)

  -- A message of a user who is logged in to one who is not online: the handler makes one query, the
  -- INSERT with the sender, the receiver, the time, the receiving time -1, the type and the text, cut to
  -- the 499 bytes that fit its buffer, in the words of its format. Where that fails, one line is logged,
  -- and the message is lost. No message is sent, no queue changes and the packet is not freed, whether
  -- it succeeds or not.
  pub route_message-offline :
      (a p : Addr) (blk : ThreadBlock env.Float) (pk : Packet) (s : Bytes)
      → IsSending a p blk pk
      → pk.msg ≡ text s
      → get_addr_from_addr_table w.table (to_unsigned pk.receiver_id) ≡ ok 0
      → route_message env a p w
        ≡ ok (
          tt,
          record w {
            db = (env.mysql_query (storing pk s) w.db).1;
            logged =
                if (env.mysql_query (storing pk s) w.db).0
                then w.logged
                else w.logged ++ codes "mysql query execution failed" ∷ [];
          },
        )
  route_message-offline a p blk pk s h m gone = route-stores a p blk pk s h m gone ∙ one_query _

  -- The handler of a user who is logged in sends the MSG packet at the front of its queue, when it
  -- has a text and is for this user, to its client and frees the packet; the packets behind it
  -- wait on.
  pub serve-message :
      (n p : Addr) (ps : List Addr) (node : ThreadBlock env.Float) (pk : Packet) (s : Bytes)
      → w.blocks n ≡ some node
      → node.auth ≡ user_auth
      → w.packets p ≡ some pk
      → p ≢ 0
      → pk.ptype ≡ msg_packet
      → pk.msg ≡ text s
      → eqb pk.receiver_id node.userid ≡ true
      → serve env n (p ∷ ps) w
        ≡ ok (
          tt,
          record (with_packet env
              (with_block env w n (some (record node { in_queue = ps })))
              p
              none) { sent = w.sent ++ (node.socket, msg_text pk s) ∷ [] },
        )
  unfolding serve interpret_packets dispatch route_message deliver not_yet_authenticated_exit
      get_block get_packet modify_block destroy_packet send_msg_dontwait shown
  serve-message n p ps node pk s at_n auth packet ne type m mine =
      ground (arith, at_n, auth, packet, ne, type, m, mine)

-- What the handler sends for the rows of stored messages.
abbrev pub row_texts : List (List Bytes) → List Bytes
row_texts [] = []
row_texts ((sender ∷ receiver ∷ type ∷ msg ∷ _) ∷ more) =
    snprintf max_packet_size (stored_msg sender receiver type msg) ∷ row_texts more
row_texts (_ ∷ more) = row_texts more

-- The rows have the four columns that the query asks for.
abbrev pub HaveColumns : List (List Bytes) → Type 0
HaveColumns [] = Unit
HaveColumns ((_ ∷ _ ∷ _ ∷ _ ∷ _) ∷ more) = HaveColumns more
HaveColumns (_ ∷ _) = ⊥

abbrev pub to_socket : ℕ → List Bytes → List (ℕ × Bytes)
to_socket socket [] = []
to_socket socket (t ∷ ts) = (socket, t) ∷ to_socket socket ts

-- The loop over rows of at least four columns sends every stored message to the client, in the
-- order of the rows, and changes nothing else.
send_rows-all :
    (env : Env) (w : World env) (b : Addr) (blk : ThreadBlock env.Float) (found : List (List Bytes))
    → w.blocks b ≡ some blk
    → HaveColumns found
    → send_rows env b found w
      ≡ ok (tt, record w { sent = w.sent ++ to_socket blk.socket (row_texts found) })
unfolding send_rows send_msg_dontwait get_block
send_rows-all env w b blk [] at_b c = rw (append-nil w.sent)
send_rows-all env w b blk ((s ∷ r ∷ t ∷ m ∷ more) ∷ found) at_b c = ground (
  arith,
  at_b,
  send_rows-all env
      (record w {
        sent = w.sent ++ (blk.socket, snprintf max_packet_size (stored_msg s r t m)) ∷ [];
      })
      b blk found at_b c,
  append_assoc w.sent ((blk.socket, snprintf max_packet_size (stored_msg s r t m)) ∷ [])
      (to_socket blk.socket (row_texts found)),
)
send_rows-all env w b blk ([] ∷ found) at_b c = elim c [ ]
send_rows-all env w b blk ((s ∷ []) ∷ found) at_b c = elim c [ ]
send_rows-all env w b blk ((s ∷ r ∷ []) ∷ found) at_b c = elim c [ ]
send_rows-all env w b blk ((s ∷ r ∷ t ∷ []) ∷ found) at_b c = elim c [ ]

-- The two handlers in turn: what the first leaves, the second finds in its queue.
chain :
    (env : Env) (w w1 w2 : World env) (a p n : Addr) (node : ThreadBlock env.Float) (q : Addr)
    (ps : List Addr)
    → route_message env a p w ≡ ok (tt, w1)
    → w1.blocks n ≡ some node
    → node.in_queue ≡ q ∷ ps
    → serve env n (q ∷ ps) w1 ≡ ok (tt, w2)
    → (route_message env a p >> read_queue env n) w ≡ ok (tt, w2)
unfolding read_queue get_block
chain env w w1 w2 a p n node q ps r at_n queued served = ground (arith, r, at_n, queued, served)

-- A MSG packet with a text, from a user who is logged in to another one who is online, logged in
-- and has nothing waiting: after the sender's handler has routed it and the receiver's handler has
-- served its queue once, the receiver's client has been sent exactly this message, the packet is
-- freed, and the receiver's queue is empty again.
pub message_arrives :
    (env : Env) (w : World env) (a p n : Addr) (blk node : ThreadBlock env.Float) (pk : Packet)
    (s : Bytes)
    → IsSending env w a p blk pk
    → get_addr_from_addr_table w.table (to_unsigned pk.receiver_id) ≡ ok n
    → n ≢ 0
    → w.blocks n ≡ some node
    → node.auth ≡ user_auth
    → node.in_queue ≡ []
    → p ≢ 0
    → pk.ptype ≡ msg_packet
    → pk.msg ≡ text s
    → eqb pk.receiver_id node.userid ≡ true
    → (w' : World env) × ((route_message env a p >> read_queue env n) w ≡ ok (tt, w'))
      × (w'.sent ≡ w.sent ++ (node.socket, msg_text pk s) ∷ [])
      × (w'.packets p ≡ none)
      × (w'.blocks n ≡ some node)
message_arrives env w a p n blk node pk s h found ne at_n auth idle ne' type m mine =
    let waiting : ThreadBlock env.Float = record node { in_queue = node.in_queue ++ p ∷ [] } in
    let w1 = with_block env w n (some waiting) in
    let at1 : w1.blocks n ≡ some waiting = ground arith in
    let served = serve-message env w1 n p [] waiting pk s at1 auth h.packet ne' type m mine in
    (
      record (with_packet env (with_block env w1 n (some (record node { in_queue = [] }))) p none) {
        sent = w.sent ++ (node.socket, msg_text pk s) ∷ [];
      },
      chain env w w1 _ a p n waiting p []
          (route_message-online env w a p n blk node pk h found ne at_n) at1
          (ap (λ q. q ++ p ∷ []) idle) served,
      refl,
      ground arith,
      ground (arith, idle),
    )
