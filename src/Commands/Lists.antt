-- ===== src/Commands/Lists.antt =====
-- base/commands/list: the commands on lists that invoke requests of their own.
use hazelcast_commandline_cl.Prelude.{
  ℕ, ◌-◌, ◌^◌, Bool, true, false, Option, some, [], ◌∷◌, ◌++◌, Text, codes, if◌then◌else◌,
}
use hazelcast_commandline_cl.Prelude.Int.{pos, ltb_ℤ}
use hazelcast_commandline_cl.Wire.Bytes.{Bytes}
use hazelcast_commandline_cl.Wire.Protocol.{Protocol}
use hazelcast_commandline_cl.Codec.Requests.ListOps.{
  encode_list_add_request, encode_list_add_with_index_request, encode_list_contains_request,
  encode_list_remove_request, encode_list_remove_with_index_request, encode_list_set_request,
}
use hazelcast_commandline_cl.Codec.Responses.{
  decode_list_add_response, decode_list_contains_response, decode_list_remove_response,
  decode_list_remove_with_index_response, decode_list_set_response,
}
use hazelcast_commandline_cl.Commands.Context.{Client, Row, int32_bits, list_structure}
use hazelcast_commandline_cl.Commands.Action.{
  Action, on_partition, pure, raise, or_panic, outside, ◌>>=◌, ◌>>◌,
}
use hazelcast_commandline_cl.Commands.Labels.{format_int, type_bool}
use hazelcast_commandline_cl.Commands.Common.{
  invoke, set_text, println_unnecessary, add_output_rows, execute_blocking, client_internal,
  increment_cluster_metric, string_to_partition_id, make_value_data, typed_row, decode_or_label,
  get_structure,
}

module _ {p : Protocol} (c : Client p) where
  open p use {Message}

  abbrev pub list_name : Text
  list_name = c.string_prop (codes "name")

  -- The row of a Boolean, without its type.
  abbrev bool_row : Text → Bool → Row c.Value
  bool_row name b = typed_row c name [] type_bool (c.bool_value b) false

  abbrev pub add_list_request : Bytes → Option Message
  add_list_request vd =
      if ltb_ℤ (c.int_prop (codes "index")) (pos 0)
      then encode_list_add_request p list_name vd
      else encode_list_add_with_index_request p list_name (int32_bits (c.int_prop (codes "index")))
          vd

  abbrev pub added_to_list : Message → Option Bool
  added_to_list resp =
      if ltb_ℤ (c.int_prop (codes "index")) (pos 0)
      then decode_list_add_response p resp
      else some true

  unfoldable pub list_add_body : Action c Bool
  list_add_body = do
    client_internal c
    increment_cluster_metric c (codes "total.list")
    get_structure c list_structure
    vd ← make_value_data c (c.string_arg (codes "value"))
    req ← or_panic (add_list_request vd)
    pid ← string_to_partition_id c list_name
    set_text c (
        codes "Adding value at index "
        ++ format_int (c.int_prop (codes "index"))
        ++ codes " into List '"
        ++ list_name
        ++ codes "'")
    resp ← invoke c (on_partition pid) req
    or_panic (added_to_list resp)

  -- AddCommand.Exec
  unfoldable pub exec_list_add : Action c Unit
  exec_list_add = do
    changed ← execute_blocking c (list_add_body)
    println_unnecessary c (codes "OK Updated List '" ++ list_name ++ codes "'.\n")
    add_output_rows c (bool_row (codes "Value Changed") changed ∷ [])

  unfoldable pub list_contains_body : Action c Bool
  list_contains_body = do
    client_internal c
    increment_cluster_metric c (codes "total.list")
    get_structure c list_structure
    vd ← make_value_data c (c.string_arg (codes "value"))
    pid ← string_to_partition_id c list_name
    set_text c (codes "Checking if value exists in the List '" ++ list_name ++ codes "'")
    req ← or_panic (encode_list_contains_request p list_name vd)
    resp ← invoke c (on_partition pid) req
    or_panic (decode_list_contains_response p resp)

  -- ListContainsCommand.Exec
  unfoldable pub exec_list_contains : Action c Unit
  exec_list_contains = do
    found ← execute_blocking c list_contains_body
    add_output_rows c (bool_row (codes "Contains") found ∷ [])

  -- The request, and the row, of a call by index or by value.
  unfoldable pub remove_request : ℕ → Text → Action c Message
  remove_request index [] = or_panic (encode_list_remove_with_index_request p list_name index)
  remove_request index (x ∷ value) =
      make_value_data c (x ∷ value) >>= λ vd. or_panic (encode_list_remove_request p list_name vd)

  unfoldable pub removed_row : Text → Message → Action c (Row c.Value)
  removed_row [] resp = do
    raw ← or_panic (decode_list_remove_with_index_response p resp)
    value ← decode_or_label c raw
    pure (
        typed_row c (codes "Removed Value") (codes "this_type") (c.data_type raw) value
          (c.bool_prop (codes "show-type")))
  removed_row (x ∷ value) resp = do
    removed ← or_panic (decode_list_remove_response p resp)
    pure (
        typed_row c (codes "Removed") (codes "this_type") type_bool (c.bool_value removed)
          (c.bool_prop (codes "show-type")))

  unfoldable pub remove_body : ℕ → Text → Action c (Row c.Value)
  remove_body index value = do
    client_internal c
    increment_cluster_metric c (codes "total.list")
    pid ← string_to_partition_id c list_name
    set_text c (codes "Removing value from List '" ++ list_name ++ codes "'")
    req ← remove_request index value
    resp ← invoke c (on_partition pid) req
    removed_row value resp

  -- removeFromList
  unfoldable pub remove_from_list : ℕ → Text → Action c Unit
  remove_from_list index value = do
    row ← execute_blocking c (remove_body index value)
    println_unnecessary c (codes "OK List '" ++ list_name ++ codes "' was updated.\n")
    add_output_rows c (row ∷ [])

  -- ListRemoveIndexCommand.Exec
  unfoldable pub exec_list_remove_index : Action c Unit
  exec_list_remove_index =
      if ltb_ℤ (c.int_arg (codes "index")) (pos 0)
      then raise (c.error_of (codes "index must be non-negative"))
      else if ltb_ℤ (pos (2 ^ 31 - 1)) (c.int_arg (codes "index"))
      then raise (c.error_of (codes "index must fit into a 32bit unsigned integer"))
      else remove_from_list (int32_bits (c.int_arg (codes "index"))) []

  -- ListRemoveValueCommand.Exec
  unfoldable pub exec_list_remove_value : Action c Unit
  exec_list_remove_value = remove_from_list 0 (c.string_arg (codes "value"))

  -- convertDataToRow
  unfoldable pub convert_data_to_row : Text → Option Bytes → Bool → Action c (Row c.Value)
  convert_data_to_row name raw show_type = do
    value ← outside (c.decode_value raw)
    pure (typed_row c name (codes "this_type") (c.data_type raw) value show_type)

  unfoldable pub list_set_body : Action c (Row c.Value)
  list_set_body = do
    client_internal c
    increment_cluster_metric c (codes "total.list")
    get_structure c list_structure
    vd ← make_value_data c (c.string_arg (codes "value"))
    pid ← string_to_partition_id c list_name
    set_text c (codes "Setting the value of the List '" ++ list_name ++ codes "'")
    req ← or_panic (encode_list_set_request p list_name (int32_bits (c.int_arg (codes "index"))) vd)
    resp ← invoke c (on_partition pid) req
    raw ← or_panic (decode_list_set_response p resp)
    convert_data_to_row (codes "Last Value") raw (c.bool_prop (codes "show-type"))

  -- ListSetCommand.Exec
  unfoldable pub exec_list_set : Action c Unit
  exec_list_set = do
    row ← execute_blocking c list_set_body
    println_unnecessary c (codes "OK Set the value in the List.\n")
    add_output_rows c (row ∷ [])
