-- ===== src/ConnectHandler/Places.antt =====
-- The places of the users: what a client sets, and what is answered.
use concurrent_server.Base.{
  ap, ◌∙◌, ◌⊎◌, inl, inr, append-nil, ◌≡◌, ◌≢◌, true, false, none, some, [], ◌∷◌, ◌++◌, pos, eqb,
  to_unsigned, ok, arith,
}
use concurrent_server.Text.{Bytes, snprintf, strtok_r}
use concurrent_server.Text.Tokens.{Lacks, strtok_r-append, strtok_r-whole}
use concurrent_server.AddrTable.{Addr, get_addr_from_addr_table}
use concurrent_server.Packets.{
  Packet, text, text_of, frame, type_code, coord_data, geo_packet, max_packet_size,
}
use concurrent_server.ThreadBlock.{ThreadBlock, user_auth, set_geolocation_info}
use concurrent_server.ConnectHandler.Account.{colon}
use concurrent_server.ConnectHandler.Messages.{not_yet_authenticated_exit}
use concurrent_server.ConnectHandler.Location.{
  set_location, store_words, get_location, answer_self, answer_other, ask_other, place,
}
use concurrent_server.ConnectHandler.World.{
  Env, World, get_block, get_packet, modify_block, destroy_packet, send_msg_dontwait, with_block,
  with_packet, find_user, enqueue_to,
}

module _ (env : Env) (w : World env) (b : Addr) (blk : ThreadBlock env.Float)
    (at_b : w.blocks b ≡ some blk) (auth : blk.auth ≡ user_auth) where
  -- The block with the place that the two words stand for.
  abbrev pub placed : Bytes → Bytes → ThreadBlock env.Float
  placed latti longi = record blk {
    loc = record { longitude = env.strtof longi; lattitude = env.strtof latti };
  }

  -- What may stand behind the second word: nothing, or a colon and any text.
  abbrev pub IsRest : Bytes → Type 0
  IsRest tail = (tail ≡ []) ⊎ ((rest : Bytes) × (tail ≡ colon ∷ rest))

  second_word :
      (longi tail : Bytes)
      → longi ≢ []
      → Lacks colon longi
      → IsRest tail
      → (rest : Bytes) × (strtok_r colon (longi ++ tail) ≡ some (longi, rest))
  second_word longi tail ne l (inl e) = (
    [],
    ap (λ t. strtok_r colon (longi ++ t)) e
        ∙ rw (append-nil longi) (strtok_r-whole colon longi ne l),
  )
  second_word longi tail ne l (inr (rest, e)) =
      (rest, ap (λ t. strtok_r colon (longi ++ t)) e ∙ strtok_r-append colon longi rest ne l)

  -- A packet SET_GEO of a user who is logged in, with the text "lattitude:longitude", or with that, a
  -- colon and more, and neither of the two parts empty, sets the place of its client, and is freed.
  pub set_location-placed :
      (p : Addr) (pk : Packet) (latti longi tail : Bytes)
      → w.packets p ≡ some pk
      → pk.msg ≡ text (latti ++ colon ∷ (longi ++ tail))
      → latti ≢ []
      → Lacks colon latti
      → longi ≢ []
      → Lacks colon longi
      → IsRest tail
      → set_location env b p w
        ≡ ok (tt, with_packet env (with_block env w b (some (placed latti longi))) p none)
  unfolding set_location store_words not_yet_authenticated_exit get_block get_packet modify_block
      destroy_packet text_of set_geolocation_info
  set_location-placed p pk latti longi tail at_p m ne l ne' l' behind =
      let (rest, second) = second_word longi tail ne' l' behind in
      ground (arith, at_b, auth, at_p, m, strtok_r-append colon latti (longi ++ tail) ne l, second)

  -- The answer that a client gets on a request for its own place.
  abbrev pub place_text : Packet → Bytes
  place_text pk = snprintf max_packet_size (
      frame (pos geo_packet) pk.sender_id pk.receiver_id (type_code coord_data) (place env blk.loc))

  -- A request of a user who is logged in for the own place is answered with it, and with nothing
  -- else.
  get_location_self :
      (p : Addr) (pk : Packet)
      → w.packets p ≡ some pk
      → eqb pk.receiver_id pk.sender_id ≡ true
      → eqb pk.sender_id pk.receiver_id ≡ true
      → get_location env b p w
        ≡ ok (tt, record w { sent = w.sent ++ (blk.socket, place_text pk) ∷ [] })
  unfolding get_location answer_self answer_other ask_other not_yet_authenticated_exit get_block
      get_packet send_msg_dontwait
  get_location_self p pk at_p same same' = ground (arith, at_b, auth, at_p, same, same')

  -- The request of a user who is logged in for the place of another one who is online is handed to
  -- that user's queue, and changes nothing else.
  get_location-ask :
      (p n : Addr) (node : ThreadBlock env.Float) (pk : Packet)
      → w.packets p ≡ some pk
      → eqb blk.userid pk.sender_id ≡ true
      → eqb pk.receiver_id pk.sender_id ≡ false
      → eqb pk.sender_id pk.receiver_id ≡ false
      → eqb blk.userid pk.receiver_id ≡ false
      → get_addr_from_addr_table w.table (to_unsigned pk.receiver_id) ≡ ok n
      → n ≢ 0
      → w.blocks n ≡ some node
      → get_location env b p w
        ≡ ok (tt, with_block env w n (some (record node { in_queue = node.in_queue ++ p ∷ [] })))
  unfolding get_location answer_self answer_other ask_other not_yet_authenticated_exit get_block
      get_packet find_user enqueue_to
  get_location-ask p n node pk at_p mine d d' d'' found ne at_n =
      ground (arith, at_b, auth, at_p, mine, d, d', d'', found, ne, at_n)
