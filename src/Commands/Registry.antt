-- ===== src/Commands/Registry.antt =====
-- The commands on data structures, as they are registered.
use hazelcast_commandline_cl.Prelude.{Text}
use hazelcast_commandline_cl.Wire.Protocol.{Protocol}
use hazelcast_commandline_cl.Codec.Requests.MapOps.{
  encode_map_entry_set_request, encode_map_get_request, encode_map_key_set_request,
  encode_map_remove_request, encode_map_values_request,
}
use hazelcast_commandline_cl.Codec.Requests.MultiMapOps.{
  encode_multi_map_entry_set_request, encode_multi_map_get_request,
  encode_multi_map_key_set_request, encode_multi_map_remove_request,
  encode_multi_map_values_request,
}
use hazelcast_commandline_cl.Codec.Responses.{
  decode_map_entry_set_response, decode_map_get_response, decode_map_key_set_response,
  decode_map_remove_response, decode_map_values_response, decode_multi_map_entry_set_response,
  decode_multi_map_get_response, decode_multi_map_key_set_response,
  decode_multi_map_remove_response, decode_multi_map_values_response,
}
use hazelcast_commandline_cl.Commands.Context.{
  Client, Structure, map_structure, multi_map_structure,
}
use hazelcast_commandline_cl.Commands.Action.{Action}
use hazelcast_commandline_cl.Commands.Lists.{
  exec_list_add, exec_list_contains, exec_list_remove_index, exec_list_remove_value, exec_list_set,
}
use hazelcast_commandline_cl.Commands.Batches.{
  exec_set_add, exec_queue_offer, exec_set_remove, exec_set_get_all, exec_queue_poll,
}
use hazelcast_commandline_cl.Commands.Maps.{
  exec_entry_set, exec_key_set, exec_values, map_response_rows, multi_map_response_rows, exec_get,
  exec_map_remove,
}
use hazelcast_commandline_cl.Commands.Maps.Puts.{exec_map_set, exec_load_all, exec_multi_map_put}
use hazelcast_commandline_cl.Commands.Locks.{exec_lock, exec_try_lock}
use hazelcast_commandline_cl.Commands.Structures.{exec_destroy, exec_clear, exec_size}

pub data Command : Type 0 where
  list_add_command list_contains_command list_remove_index_command list_remove_value_command
        list_set_command :
      Command
  set_add_command set_remove_command set_get_all_command queue_offer_command queue_poll_command :
      Command
  map_entry_set_command map_key_set_command map_values_command map_get_command map_remove_command :
      Command
  multi_map_entry_set_command multi_map_key_set_command multi_map_values_command : Command
  multi_map_get_command multi_map_remove_command : Command
  map_set_command map_load_all_command multi_map_put_command : Command
  lock_command try_lock_command : Structure → Command
  destroy_command clear_command size_command : Structure → Text → Command

module _ {p : Protocol} (c : Client p) where
  open p use {Message}

  -- The registered commands, with the parameters that they are made with.
  unfoldable pub exec : Command → Action c Unit
  exec list_add_command = exec_list_add c
  exec list_contains_command = exec_list_contains c
  exec list_remove_index_command = exec_list_remove_index c
  exec list_remove_value_command = exec_list_remove_value c
  exec list_set_command = exec_list_set c
  exec set_add_command = exec_set_add c
  exec set_remove_command = exec_set_remove c
  exec set_get_all_command = exec_set_get_all c
  exec queue_offer_command = exec_queue_offer c
  exec queue_poll_command = exec_queue_poll c
  exec map_entry_set_command =
      exec_entry_set c map_structure (encode_map_entry_set_request p)
        (decode_map_entry_set_response p)
  exec map_key_set_command =
      exec_key_set c map_structure (encode_map_key_set_request p) (decode_map_key_set_response p)
  exec map_values_command =
      exec_values c map_structure (encode_map_values_request p) (decode_map_values_response p)
  exec map_get_command =
      exec_get c map_structure (encode_map_get_request p)
        (map_response_rows c (decode_map_get_response p))
  exec map_remove_command =
      exec_map_remove c map_structure (encode_map_remove_request p)
        (map_response_rows c (decode_map_remove_response p))
  exec multi_map_entry_set_command =
      exec_entry_set c multi_map_structure (encode_multi_map_entry_set_request p)
        (decode_multi_map_entry_set_response p)
  exec multi_map_key_set_command =
      exec_key_set c multi_map_structure (encode_multi_map_key_set_request p)
        (decode_multi_map_key_set_response p)
  exec multi_map_values_command =
      exec_values c multi_map_structure (encode_multi_map_values_request p)
        (decode_multi_map_values_response p)
  exec multi_map_get_command =
      exec_get c multi_map_structure (encode_multi_map_get_request p)
        (multi_map_response_rows c (decode_multi_map_get_response p))
  exec multi_map_remove_command =
      exec_map_remove c multi_map_structure (encode_multi_map_remove_request p)
        (multi_map_response_rows c (decode_multi_map_remove_response p))
  exec map_set_command = exec_map_set c
  exec map_load_all_command = exec_load_all c
  exec multi_map_put_command = exec_multi_map_put c
  exec (lock_command kind) = exec_lock c kind
  exec (try_lock_command kind) = exec_try_lock c kind
  exec (destroy_command kind metric) = exec_destroy c kind metric
  exec (clear_command kind metric) = exec_clear c kind metric
  exec (size_command kind metric) = exec_size c kind metric
