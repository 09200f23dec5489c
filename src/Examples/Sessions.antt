-- ===== src/Examples/Sessions.antt =====
-- Log-ins and their ends in the handlers of connect_handler.c.
use concurrent_server.Base.{◌≡◌, ◌≢◌, refl, none, [], ◌∷◌, pos, to_unsigned, ok, arith}
use concurrent_server.AddrTable.{Addr}
use concurrent_server.AddrTable.Spec.{Holds, erase}
use concurrent_server.ConnectHandler.World.{World, destroy_handlers_block}
use concurrent_server.ConnectHandler.Login.{destroy_handlers_block-erase}
use concurrent_server.Examples.Worlds.{env, bob, entries, online-Holds, world, to_bob}

destroy_handlers_block-erase_example :
    (w' : World env) × (destroy_handlers_block env 90 (world to_bob) ≡ ok (tt, w'))
    × Holds w'.table (erase (to_unsigned (pos 5)) entries)
    × (w'.blocks 90 ≡ none)
    × (w'.closed ≡ 12 ∷ [])
    × ((a : Addr) → a ≢ 90 → w'.blocks a ≡ (world to_bob).blocks a)
unfolding to_unsigned
destroy_handlers_block-erase_example =
    destroy_handlers_block-erase env (world to_bob) 90 bob entries refl refl online-Holds
      (ground arith) (ground arith) (omega arith)
