-- ===== src/Commands/Requests.antt =====
-- The commands on data structures, and what each may ask the client for: the calls of the client
-- protocol, with their targets, and the calls of proxies.
pub mod Quiet
mod Binds
mod Lists
mod Batches
mod Maps
mod Others
pub mod Every
use mathlib.Core.Option.{some-injective}
use hazelcast_commandline_cl.Prelude.{
  ℕ, ◌<◌, ◌^◌, ◌≡◌, ◌≢◌, true, false, Bool, some, List, [], Text, codes, subst, sym, ◌∙◌,
}
use hazelcast_commandline_cl.Prelude.Int.{ℤ, pos, ltb_ℤ}
use hazelcast_commandline_cl.Wire.Bytes.{Bytes}
use hazelcast_commandline_cl.Wire.Protocol.{Protocol}
use hazelcast_commandline_cl.Codec.Calls.{
  Call, encode, list_add, list_add_with_index, list_contains, list_remove, list_remove_with_index,
  list_set, map_entry_set, map_get, map_key_set, map_load_all, map_load_given_keys, map_remove,
  map_set, map_set_with_max_idle, map_values, multi_map_entry_set, multi_map_get, multi_map_key_set,
  multi_map_put, multi_map_remove, multi_map_values, queue_poll, set_get_all, set_remove,
}
use hazelcast_commandline_cl.Codec.Calls.Describes.{CallFits, Describes, encode-Describes}
use hazelcast_commandline_cl.Codec.Requests.MapOps.{
  encode_map_entry_set_request, encode_map_get_request, encode_map_key_set_request,
  encode_map_remove_request, encode_map_values_request,
}
use hazelcast_commandline_cl.Codec.Requests.MultiMapOps.{
  encode_multi_map_entry_set_request, encode_multi_map_get_request,
  encode_multi_map_key_set_request, encode_multi_map_remove_request,
  encode_multi_map_values_request,
}
use hazelcast_commandline_cl.Codec.Responses.{
  decode_map_entry_set_response, decode_map_get_response, decode_map_key_set_response,
  decode_map_remove_response, decode_map_values_response, decode_multi_map_entry_set_response,
  decode_multi_map_get_response, decode_multi_map_key_set_response,
  decode_multi_map_remove_response, decode_multi_map_values_response,
}
use hazelcast_commandline_cl.Commands.Context.{
  Client, Structure, set_structure, queue_structure, map_structure, multi_map_structure, int32_bits,
  int64_bits,
}
use hazelcast_commandline_cl.Commands.Action.{
  Action, Target, on_partition, on_key, on_random, Event, invoked, called, ProxyCall, adding,
  destroying, clearing, locking, locking_for, trying, trying_for,
}
use hazelcast_commandline_cl.Commands.Common.{ttl_unset, int_or_unset}
use hazelcast_commandline_cl.Commands.Arguments.{
  IsRead, IsKey, IsValue, IsOneOf, AreKeys, IsPartition,
}
use hazelcast_commandline_cl.Commands.Registry.{
  Command, clear_command, destroy_command, list_add_command, list_contains_command,
  list_remove_index_command, list_remove_value_command, list_set_command, lock_command,
  map_entry_set_command, map_get_command, map_key_set_command, map_load_all_command,
  map_remove_command, map_set_command, map_values_command, multi_map_entry_set_command,
  multi_map_get_command, multi_map_key_set_command, multi_map_put_command, multi_map_remove_command,
  multi_map_values_command, queue_offer_command, queue_poll_command, set_add_command,
  set_get_all_command, set_remove_command, size_command, try_lock_command,
}
use hazelcast_commandline_cl.Commands.Lists.{
  exec_list_add, exec_list_contains, exec_list_remove_index, exec_list_remove_value, exec_list_set,
}
use hazelcast_commandline_cl.Commands.Batches.{
  exec_set_add, exec_queue_offer, exec_set_remove, exec_set_get_all, exec_queue_poll,
}
use hazelcast_commandline_cl.Commands.Maps.{
  exec_entry_set, exec_key_set, exec_values, map_response_rows, multi_map_response_rows, exec_get,
  exec_map_remove,
}
use hazelcast_commandline_cl.Commands.Maps.Puts.{exec_map_set, exec_load_all, exec_multi_map_put}
use hazelcast_commandline_cl.Commands.Locks.{exec_lock, exec_try_lock}
use hazelcast_commandline_cl.Commands.Structures.{exec_destroy, exec_clear, exec_size}

module _ {p : Protocol} (c : Client p) where
  open p use {Message}

  abbrev pub structure : Text
  structure = c.string_prop (codes "name")

  -- What a command may have invoked, and where.
  pub data Invokes : Command → Target → Call p → Type 0 where
    list_adds :
        (pid : ℕ) (vd : Bytes)
        → IsPartition c structure pid
        → IsValue c (c.string_arg (codes "value")) vd
        → ltb_ℤ (c.int_prop (codes "index")) (pos 0) ≡ true
        → Invokes list_add_command (on_partition pid) (list_add structure vd)
    list_adds_at :
        (pid : ℕ) (vd : Bytes)
        → IsPartition c structure pid
        → IsValue c (c.string_arg (codes "value")) vd
        → ltb_ℤ (c.int_prop (codes "index")) (pos 0) ≡ false
        → Invokes list_add_command
            (on_partition pid)
            (list_add_with_index structure (int32_bits (c.int_prop (codes "index"))) vd)
    list_asks :
        (pid : ℕ) (vd : Bytes)
        → IsPartition c structure pid
        → IsValue c (c.string_arg (codes "value")) vd
        → Invokes list_contains_command (on_partition pid) (list_contains structure vd)
    list_removes_at :
        (pid index : ℕ)
        → IsPartition c structure pid
        → c.int_arg (codes "index") ≡ pos index
        → index < 2 ^ 31
        → Invokes list_remove_index_command
            (on_partition pid)
            (list_remove_with_index structure index)
    list_removes :
        (pid : ℕ) (vd : Bytes)
        → IsPartition c structure pid
        → IsValue c (c.string_arg (codes "value")) vd
        → c.string_arg (codes "value") ≢ []
        → Invokes list_remove_value_command (on_partition pid) (list_remove structure vd)
    -- A blank value removes the first element.
    list_removes_first :
        (pid : ℕ)
        → IsPartition c structure pid
        → c.string_arg (codes "value") ≡ []
        → Invokes list_remove_value_command (on_partition pid) (list_remove_with_index structure 0)
    list_sets :
        (pid : ℕ) (vd : Bytes)
        → IsPartition c structure pid
        → IsValue c (c.string_arg (codes "value")) vd
        → Invokes list_set_command
            (on_partition pid)
            (list_set structure (int32_bits (c.int_arg (codes "index"))) vd)
    set_removes :
        (pid : ℕ) (vd : Bytes)
        → IsPartition c structure pid
        → IsOneOf c (c.strings_arg (codes "value")) vd
        → Invokes set_remove_command (on_partition pid) (set_remove structure vd)
    set_lists :
        (pid : ℕ)
        → IsPartition c structure pid
        → Invokes set_get_all_command (on_partition pid) (set_get_all structure)
    queue_polls :
        (pid : ℕ)
        → IsPartition c structure pid
        → Invokes queue_poll_command (on_partition pid) (queue_poll structure 0)
    map_entries : Invokes map_entry_set_command on_random (map_entry_set structure)
    map_keys : Invokes map_key_set_command on_random (map_key_set structure)
    map_lists : Invokes map_values_command on_random (map_values structure)
    map_gets :
        (key : Bytes)
        → IsKey c (c.string_arg (codes "key")) key
        → Invokes map_get_command (on_key key) (map_get structure key 0)
    map_removes :
        (key : Bytes)
        → IsKey c (c.string_arg (codes "key")) key
        → Invokes map_remove_command (on_key key) (map_remove structure key 0)
    multi_map_entries :
        Invokes multi_map_entry_set_command on_random (multi_map_entry_set structure)
    multi_map_keys : Invokes multi_map_key_set_command on_random (multi_map_key_set structure)
    multi_map_lists : Invokes multi_map_values_command on_random (multi_map_values structure)
    multi_map_gets :
        (key : Bytes)
        → IsKey c (c.string_arg (codes "key")) key
        → Invokes multi_map_get_command (on_key key) (multi_map_get structure key 0)
    multi_map_removes :
        (key : Bytes)
        → IsKey c (c.string_arg (codes "key")) key
        → Invokes multi_map_remove_command (on_key key) (multi_map_remove structure key 0)
    map_sets :
        (key value : Bytes)
        → IsKey c (c.string_arg (codes "key")) key
        → IsValue c (c.string_arg (codes "value")) value
        → ltb_ℤ (int_or_unset c (codes "max-idle")) (pos 0) ≡ true
        → Invokes map_set_command
            (on_key key)
            (map_set structure key value 0 (int64_bits (int_or_unset c (codes "ttl"))))
    map_sets_idle :
        (key value : Bytes)
        → IsKey c (c.string_arg (codes "key")) key
        → IsValue c (c.string_arg (codes "value")) value
        → ltb_ℤ (int_or_unset c (codes "max-idle")) (pos 0) ≡ false
        → Invokes map_set_command (on_key key) (
            map_set_with_max_idle structure key value 0
              (int64_bits (int_or_unset c (codes "ttl")))
              (int64_bits (int_or_unset c (codes "max-idle"))))
    map_loads :
        c.strings_arg (codes "key") ≡ []
        → Invokes map_load_all_command on_random
            (map_load_all structure (c.bool_prop (codes "replace")))
    map_loads_keys :
        (keys : List Bytes)
        → c.strings_arg (codes "key") ≢ []
        → AreKeys c (c.strings_arg (codes "key")) keys
        → Invokes map_load_all_command on_random
            (map_load_given_keys structure keys (c.bool_prop (codes "replace")))
    multi_map_puts :
        (key value : Bytes)
        → IsKey c (c.string_arg (codes "key")) key
        → IsValue c (c.string_arg (codes "value")) value
        → Invokes multi_map_put_command (on_key key) (multi_map_put structure key value 0)

  -- What a command may call a proxy for.
  pub data Calls : Command → Structure → ProxyCall c.Value → Type 0 where
    set_adds :
        (vd : Bytes)
        → IsOneOf c (c.strings_arg (codes "value")) vd
        → Calls set_add_command set_structure (adding vd)
    queue_offers :
        (vd : Bytes)
        → IsOneOf c (c.strings_arg (codes "value")) vd
        → Calls queue_offer_command queue_structure (adding vd)
    locks :
        (kind : Structure) (key : c.Value)
        → IsRead c (codes "key-type") (c.string_arg (codes "key")) key
        → int_or_unset c (codes "ttl") ≡ ttl_unset
        → Calls (lock_command kind) kind (locking key)
    locks_for :
        (kind : Structure) (key : c.Value)
        → IsRead c (codes "key-type") (c.string_arg (codes "key")) key
        → int_or_unset c (codes "ttl") ≢ ttl_unset
        → Calls (lock_command kind) kind (locking_for key (int_or_unset c (codes "ttl")))
    tries :
        (kind : Structure) (key : c.Value)
        → IsRead c (codes "key-type") (c.string_arg (codes "key")) key
        → int_or_unset c (codes "ttl") ≡ ttl_unset
        → Calls (try_lock_command kind) kind (trying key)
    tries_for :
        (kind : Structure) (key : c.Value)
        → IsRead c (codes "key-type") (c.string_arg (codes "key")) key
        → int_or_unset c (codes "ttl") ≢ ttl_unset
        → Calls (try_lock_command kind) kind (trying_for key (int_or_unset c (codes "ttl")))
    destroys :
        (kind : Structure) (metric : Text) → Calls (destroy_command kind metric) kind destroying
    clears : (kind : Structure) (metric : Text) → Calls (clear_command kind metric) kind clearing

  -- The message describes a call that the command may invoke at this target; the proxy is that of the
  -- command's structure, and the command may call it so.
  pub data Asks (k : Command) : Event Message c.Value → Type 0 where
    by_message :
        {t : Target} {m : Message} (call : Call p)
        → Invokes k t call
        → Describes p call m
        → Asks k (invoked t m)
    by_proxy :
        {kind : Structure} {call : ProxyCall c.Value}
        → Calls k kind call
        → Asks k (called kind structure call)

module _ {p : Protocol} {c : Client p} {k : Command} where
  open p use {Message}

  -- An encoder's message describes its call.
  pub encoded-Asks :
      {t : Target} (call : Call p) (m : Message)
      → Invokes c k t call
      → CallFits p call
      → encode p call ≡ some m
      → Asks c k (invoked t m)
  encoded-Asks call m may fits h =
      let (m', e, d) = encode-Describes p call fits in
      by_message call may (subst (Describes p call) (some-injective m' m (sym e ∙ h)) d)
