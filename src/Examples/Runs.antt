-- ===== src/Examples/Runs.antt =====
-- Runs of the handlers of connect_handler.c over the inputs of a client, from the socket to the answers.
use concurrent_server.Base.{
  true, ℕ, ◌≡◌, refl, some, none, Option, List, [], ◌∷◌, to_unsigned, to_int, ok, fault,
}
use concurrent_server.Text.{Bytes, codes, strtok_r, atoi, strcpy, print_int}
use concurrent_server.AddrTable.{
  read, write, search_loop, search_from, binary_search, insert_loop, insert_at,
  insert_in_addr_table, get_addr_from_addr_table,
}
use concurrent_server.Packets.{
  string_to_packet, parse_fields, field, shown, text_of, frame, type_code,
}
use concurrent_server.ConnectHandler.Account.{
  authenticate_user, credentials, answer_authentication, authenticate_words, authenticator, fetched,
  log_in, new_user, query_or_destroy, row_userid,
}
use concurrent_server.ConnectHandler.Messages.{deliver, route_message, not_yet_authenticated_exit}
use concurrent_server.ConnectHandler.World.{
  World, Env, ◌>>=◌, get_block, receive_packet, get_packet, destroy_packet, enqueue_to, find_user,
  modify_block, rows, run_query, send_msg_dontwait, set_auth,
}
use concurrent_server.ConnectHandler.Loop.{
  connection_handler, round, read_socket, interpret_packets, dispatch, read_queue, serve,
  test_cancel,
}
use concurrent_server.Examples.Worlds.{env_with, world_with, to_bob, guest}
use concurrent_server.ThreadBlock.{ThreadBlock}
use concurrent_server.ConnectHandler.Delivery.{to_socket}
use concurrent_server.ConnectHandler.Isolation.{connection_handler-sends}

-- The database answers each query with the row of user 4.
abbrev row : List Bytes
row = codes "4" ∷ codes "carol" ∷ []

abbrev knowing : Env
knowing = env_with (row ∷ [])

-- The handlers take turns: the one at 80 reads its inputs, and then the one at 90 its queue.
abbrev answers : List (Option Bytes) → Option (List (ℕ × Bytes))
answers inputs =
    elim ((connection_handler knowing 80 inputs >>= λ _. read_queue knowing 90)
      (world_with (row ∷ []) to_bob)) [ fault ↦ none | ok (_, w) ↦ some w.sent ]

abbrev inputs : List (Option Bytes)
inputs = some (codes "|10|-1|-1|1|carol:secret|") ∷ none ∷ some (codes "|30|4|5|12|hello|") ∷ []

-- The client logs in, and its message reaches the other one.
login_and_message :
    answers inputs ≡ some ((13, codes "|40|4|-1|-1|ACK|") ∷ (12, codes "|30|4|5|12|hello|") ∷ [])
unfolding connection_handler round get_block read_socket receive_packet string_to_packet
    parse_fields field interpret_packets get_packet dispatch strtok_r to_unsigned to_int atoi
    authenticate_user credentials shown text_of strcpy destroy_packet answer_authentication
    authenticate_words authenticator fetched log_in new_user query_or_destroy row_userid read_queue
    serve test_cancel deliver not_yet_authenticated_exit route_message enqueue_to find_user
    modify_block rows run_query send_msg_dontwait set_auth frame print_int type_code read write
    search_loop search_from binary_search insert_loop insert_at insert_in_addr_table
    get_addr_from_addr_table
login_and_message = refl

abbrev start : World knowing
start = world_with (row ∷ []) to_bob

-- The world after the client's inputs.
abbrev after : World knowing
after = elim (connection_handler knowing 80 inputs start) [ fault ↦ start | ok (_, w) ↦ w ]

inputs_run : connection_handler knowing 80 inputs start ≡ ok (true, after)
unfolding connection_handler round get_block read_socket receive_packet string_to_packet
    parse_fields field interpret_packets get_packet dispatch strtok_r to_unsigned to_int atoi
    authenticate_user credentials shown text_of strcpy destroy_packet answer_authentication
    authenticate_words authenticator fetched log_in new_user query_or_destroy row_userid read_queue
    serve test_cancel deliver not_yet_authenticated_exit route_message enqueue_to find_user
    modify_block rows run_query send_msg_dontwait set_auth frame print_int type_code read write
    search_loop search_from binary_search insert_loop insert_at insert_in_addr_table
    get_addr_from_addr_table
inputs_run = refl

connection_handler-sends_example :
    ((left : ThreadBlock Bytes) → after.blocks 80 ≡ some left → left.socket ≡ 13)
    × (ts : List Bytes) × (after.sent ≡ to_socket 13 ts)
connection_handler-sends_example =
    connection_handler-sends knowing 80 start after guest inputs true refl inputs_run
