-- ===== src/ThreadBlock.antt =====
-- data_structs/thread_info_block.h and data_structs/thread_info_block.c: what the server keeps for
-- each connection. `in_queue` holds the addresses of the packets that wait, the oldest first: the
-- queue of libs/queue.c as the module Queue.Refine specifies it. The thread's cancellation request
-- is the flag `cancelled`. `Float` is the type of a C `float`.
use concurrent_server.Base.{
  ℕ, Bool, true, false, Option, none, some, List, [], replicate, ◌&&◌, if◌then◌else◌, ℤ, pos,
  minus_one,
}
use concurrent_server.Text.{Bytes}

pub data UserAuthLevel : Type 0 where
  user_not_auth user_auth user_to_exit : UserAuthLevel

pub record Geoloc (Float : Type 0) : Type 0 where
  pub longitude : Float
  pub lattitude : Float

pub record ThreadBlock (Float : Type 0) : Type 0 where
  pub socket : ℕ
  pub userid : ℤ
  pub username : Bytes
  pub auth : UserAuthLevel
  pub revision_number : ℤ
  pub loc : Geoloc Float
  pub in_queue : List ℕ
  pub cancelled : Bool

abbrev pub name_buf_size : ℕ
name_buf_size = 100

abbrev pub passwd_buf_size : ℕ
passwd_buf_size = 120

-- What the allocations and the calls of the MySQL library in `create_thread_node` return.
pub record Startup : Type 0 where
  pub malloc : Bool
  pub mysql_init : Bool
  pub mysql_real_connect : Bool
  pub create_queue : Bool

module _ {Float : Type 0} where
  -- `none` is NULL. The flag of the result is whether the socket was closed on the way; with a failed
  -- `malloc` it is not. `unset` is the float -1.
  unfoldable pub create_thread_node : Startup → Float → ℕ → Option (ThreadBlock Float) × Bool
  create_thread_node st unset sockfd =
      if st.malloc
      then (if st.mysql_init && (st.mysql_real_connect && st.create_queue)
          then (
            some (record {
              socket = sockfd;
              userid = minus_one;
              username = replicate name_buf_size 0;
              auth = user_not_auth;
              revision_number = pos 0;
              loc = record { longitude = unset; lattitude = unset };
              in_queue = [];
              cancelled = false;
            }),
            false,
          )
          else (none, true))
      else (none, false)

  pub set_thread_node_socket : ThreadBlock Float → ℕ → ThreadBlock Float
  set_thread_node_socket th sockfd = record th { socket = sockfd }

  unfoldable pub set_geolocation_info : ThreadBlock Float → Float → Float → ThreadBlock Float
  set_geolocation_info node long latti = record node {
    loc = record { longitude = long; lattitude = latti };
  }

  pub get_geolocation : Option (ThreadBlock Float) → Option (Geoloc Float)
  get_geolocation none = none
  get_geolocation (some node) = some node.loc

  -- Both arguments may be NULL.
  pub set_in_queue : Option (ThreadBlock Float) → Option (List ℕ) → Option (ThreadBlock Float)
  set_in_queue none q = none
  set_in_queue (some blk) none = some blk
  set_in_queue (some blk) (some q) = some (record blk { in_queue = q })

  pub get_in_queue : ThreadBlock Float → List ℕ
  get_in_queue blk = blk.in_queue
