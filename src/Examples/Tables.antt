-- ===== src/Examples/Tables.antt =====
-- The table of data_structs/addr_table.c and the texts of data_structs/packets.c on small inputs.
use concurrent_server.Base.{
  ℕ, zero, suc, ◌≡◌, refl, true, some, none, List, [], ◌∷◌, ◌++◌, ok, fault, ◌>>=◌, arith, pos,
  minus_one,
}
use concurrent_server.Text.{codes}
use concurrent_server.AddrTable.{
  Entry, entry, Table, insert_in_addr_table, get_addr_from_addr_table, remove_from_addr_table,
}
use concurrent_server.AddrTable.Spec.{Holds, zeros, lookup, insert, erase, Above}
use concurrent_server.AddrTable.Insert.{insert-Holds}
use concurrent_server.AddrTable.Limits.{overruns_from_99}
use concurrent_server.AddrTable.Remove.{remove-Holds}
use concurrent_server.AddrTable.Search.{get-lookup}
use concurrent_server.Packets.{Packet, text, packet_to_string, string_to_packet}
use concurrent_server.Packets.RoundTrip.{IsSendable, string_to_packet-packet_to_string}

abbrev two_entries : List Entry
two_entries = entry 3 70 ∷ entry 5 90 ∷ []

abbrev two_users : Table
two_users = record { len = pos 2; addrs = entry 3 70 ∷ entry 5 90 ∷ zeros 98 }

two_users-Holds : Holds two_users two_entries
two_users-Holds = record { len = refl; addrs = refl; sorted = (omega arith, (omega arith, tt)) }

insert-Holds_example :
    (t' : Table) × (insert_in_addr_table two_users 4 80 ≡ ok t')
    × Holds t' (insert 4 80 two_entries)
    × (t'.len ≡ pos 3)
insert-Holds_example =
    insert-Holds two_users-Holds 4 80 (omega arith) (omega arith, (omega arith, tt)) (omega arith)

remove-Holds_example :
    (t' : Table) × (remove_from_addr_table two_users 3 ≡ ok (lookup 3 two_entries, t'))
    × Holds t' (erase 3 two_entries)
remove-Holds_example = remove-Holds two_users-Holds 3 (omega arith) (omega arith) (omega arith)

get-lookup_example : get_addr_from_addr_table two_users 5 ≡ ok (lookup 5 two_entries)
get-lookup_example = get-lookup two_users-Holds 5 (omega arith) (omega arith) (omega arith)

-- The ids above `lo`, as many as there are rounds.
abbrev ids_above : ℕ → ℕ → List Entry
ids_above zero lo = []
ids_above (suc n) lo = entry (suc lo) 70 ∷ ids_above n (suc lo)

ids_above-Above : (n lo : ℕ) → Above lo (ids_above n lo)
ids_above-Above zero lo = tt
ids_above-Above (suc n) lo = (omega arith, ids_above-Above n (suc lo))

abbrev nearly_full : Table
nearly_full = record { len = pos 99; addrs = ids_above 99 0 ++ zeros 1 }

nearly_full-Holds : Holds nearly_full (ids_above 99 0)
nearly_full-Holds = record { len = refl; addrs = refl; sorted = ids_above-Above 99 0 }

-- User 7 logs out, or users 100 and 101 log in.
overruns_from_99_example :
    (remove_from_addr_table nearly_full 7 ≡ fault)
    × ((t' : Table) × (insert_in_addr_table nearly_full 100 80 ≡ ok t')
        × Holds t' (insert 100 80 (ids_above 99 0))
        × (insert_in_addr_table t' 101 70 ≡ fault))
unfolding lookup
overruns_from_99_example =
    overruns_from_99 nearly_full-Holds 7 100 101 80 70 (omega arith) (omega arith) (omega arith)
      refl (ground arith) (ground arith)

abbrev hello : Packet
hello = record {
  ptype = 30;
  sender_id = pos 3;
  receiver_id = pos 5;
  tmsg = minus_one;
  msg = text (codes "hello");
}

hello-IsSendable : IsSendable hello (codes "hello")
hello-IsSendable = record {
  msg = refl;
  ptype = omega arith;
  sender_id = omega arith;
  receiver_id = omega arith;
  tmsg = omega arith;
  ne_nil = ground arith;
  lacks = ground arith;
  short = omega arith;
}

string_to_packet-packet_to_string_example :
    (packet_to_string true (some hello) >>= λ str. elim str [
      | none ↦ ok none
      | some t ↦ string_to_packet (record { strdup = true; memory = some hello; strndup = true }) t
    ])
    ≡ ok (some hello)
string_to_packet-packet_to_string_example =
    string_to_packet-packet_to_string hello (codes "hello") hello hello-IsSendable
