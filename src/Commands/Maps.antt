-- ===== src/Commands/Maps.antt =====
-- base/commands/map_common.go: the commands that maps and multimaps share, and base/commands/map and
-- base/commands/multimap.
pub mod Puts
use hazelcast_commandline_cl.Prelude.{
  ℕ, zero, suc, Bool, true, false, Option, some, List, [], ◌∷◌, ◌++◌, Text, codes, if◌then◌else◌,
}
use hazelcast_commandline_cl.Prelude.Int.{ℤ, pos, negsuc, ltb_ℤ}
use hazelcast_commandline_cl.Wire.Bytes.{Bytes}
use hazelcast_commandline_cl.Wire.Protocol.{Protocol}
use hazelcast_commandline_cl.Codec.Requests.MapOps.{
  encode_map_entry_set_request, encode_map_get_request, encode_map_key_set_request,
  encode_map_load_all_request, encode_map_load_given_keys_request, encode_map_remove_request,
  encode_map_set_request, encode_map_set_with_max_idle_request, encode_map_values_request,
}
use hazelcast_commandline_cl.Codec.Requests.MultiMapOps.{
  encode_multi_map_entry_set_request, encode_multi_map_get_request,
  encode_multi_map_key_set_request, encode_multi_map_put_request, encode_multi_map_remove_request,
  encode_multi_map_values_request,
}
use hazelcast_commandline_cl.Codec.Responses.{
  decode_map_entry_set_response, decode_map_get_response, decode_map_key_set_response,
  decode_map_remove_response, decode_map_values_response, decode_multi_map_entry_set_response,
  decode_multi_map_get_response, decode_multi_map_key_set_response, decode_multi_map_put_response,
  decode_multi_map_remove_response, decode_multi_map_values_response,
}
use hazelcast_commandline_cl.Commands.Context.{
  Client, Row, Structure, list_structure, set_structure, queue_structure, map_structure,
  multi_map_structure, int64_bits,
}
use hazelcast_commandline_cl.Commands.Action.{
  Action, on_key, on_random, pure, or_panic, outside, ◌>>=◌, ◌>>◌,
}
use hazelcast_commandline_cl.Commands.Labels.{type_bool}
use hazelcast_commandline_cl.Commands.Common.{
  invoke, set_text, println_unnecessary, add_output_rows, execute_blocking, client_internal,
  increment_cluster_metric, make_key_data, make_key_value_data, add_dds_rows, int_or_unset,
  typed_row, decode_or_label, each_row, structure_name, get_structure,
}

module _ {p : Protocol} (c : Client p) where
  open p use {Message}

  abbrev pub map_name : Text
  map_name = c.string_prop (codes "name")

  abbrev pub key_arg : Text
  key_arg = c.string_arg (codes "key")

  abbrev pub show_type : Bool
  show_type = c.bool_prop (codes "show-type")

  abbrev pub metric_of : Structure → Text
  metric_of map_structure = codes "total.map"
  metric_of _ = codes "total.multimap"

  -- The columns of a key, or of a value: NewKeyColumn and NewKeyTypeColumn, NewValueColumn and
  -- NewValueTypeColumn.
  unfoldable pub key_row : Bytes → Action c (Row c.Value)
  key_row r = do
    v ← decode_or_label c (some r)
    pure (typed_row c (codes "__key") (codes "__key_type") (c.data_type (some r)) v show_type)

  unfoldable pub value_row : Bytes → Action c (Row c.Value)
  value_row r = do
    v ← decode_or_label c (some r)
    pure (typed_row c (codes "this") (codes "this_type") (c.data_type (some r)) v show_type)

  -- One round of output.DecodePairs
  unfoldable pub pair_row : Bytes × Bytes → Action c (Row c.Value)
  pair_row (key, value) = do k ← key_row key; v ← value_row value; pure (k ++ v)

  unfoldable pub entry_set_body :
      Structure
      → (Text → Option Message)
      → (Message → Option (List (Bytes × Bytes)))
      → Action c (List (Row c.Value))
  entry_set_body kind encoder decoder = do
    client_internal c
    increment_cluster_metric c (metric_of kind)
    get_structure c kind
    req ← or_panic (encoder map_name)
    set_text c (codes "Getting entries of " ++ map_name)
    resp ← invoke c on_random req
    pairs ← or_panic (decoder resp)
    each_row c pair_row pairs

  -- MapEntrySetCommand.Exec
  unfoldable pub exec_entry_set :
      Structure
      → (Text → Option Message)
      → (Message → Option (List (Bytes × Bytes)))
      → Action c Unit
  exec_entry_set kind encoder decoder =
      execute_blocking c (entry_set_body kind encoder decoder)
      >>= add_dds_rows c (structure_name c kind) (codes "entries")

  -- The body of MapKeySetCommand.Exec and MapValuesCommand.Exec, which set the text in another order.
  unfoldable pub key_set_body :
      Structure
      → (Text → Option Message)
      → (Message → Option (List Bytes))
      → Action c (List (Row c.Value))
  key_set_body kind encoder decoder = do
    client_internal c
    increment_cluster_metric c (metric_of kind)
    get_structure c kind
    req ← or_panic (encoder map_name)
    set_text c
        (codes "Getting keys of " ++ structure_name c kind ++ codes " '" ++ map_name ++ codes "'")
    resp ← invoke c on_random req
    keys ← or_panic (decoder resp)
    each_row c key_row keys

  -- MapKeySetCommand.Exec
  unfoldable pub exec_key_set :
      Structure → (Text → Option Message) → (Message → Option (List Bytes)) → Action c Unit
  exec_key_set kind encoder decoder =
      execute_blocking c (key_set_body kind encoder decoder)
      >>= add_dds_rows c (structure_name c kind) (codes "keys")

  unfoldable pub values_body :
      Structure
      → (Text → Option Message)
      → (Message → Option (List Bytes))
      → Action c (List (Row c.Value))
  values_body kind encoder decoder = do
    client_internal c
    increment_cluster_metric c (metric_of kind)
    get_structure c kind
    set_text c (codes "Getting values of " ++ map_name)
    req ← or_panic (encoder map_name)
    resp ← invoke c on_random req
    values ← or_panic (decoder resp)
    each_row c value_row values

  -- MapValuesCommand.Exec
  unfoldable pub exec_values :
      Structure → (Text → Option Message) → (Message → Option (List Bytes)) → Action c Unit
  exec_values kind encoder decoder =
      execute_blocking c (values_body kind encoder decoder)
      >>= add_dds_rows c (structure_name c kind) (codes "values")

  -- makeDecodeResponseRowsFunc of maps, which connects again
  unfoldable pub map_response_rows :
      (Message → Option (Option Bytes)) → Message → Action c (List (Row c.Value))
  map_response_rows decoder res = do
    outside c.connect
    raw ← or_panic (decoder res)
    value ← decode_or_label c raw
    pure (typed_row c (codes "this") (codes "this_type") (c.data_type raw) value show_type ∷ [])

  -- makeDecodeResponseRowsFunc of multimaps
  unfoldable pub multi_map_response_rows :
      (Message → Option (List Bytes)) → Message → Action c (List (Row c.Value))
  multi_map_response_rows decoder res = do
    outside c.connect
    values ← or_panic (decoder res)
    each_row c value_row values

  unfoldable pub get_body :
      Structure
      → (Text → Bytes → ℕ → Option Message)
      → (Message → Action c (List (Row c.Value)))
      → Action c (List (Row c.Value))
  get_body kind encoder decoder = do
    client_internal c
    increment_cluster_metric c (metric_of kind)
    get_structure c kind
    set_text c
        (codes "Getting from " ++ structure_name c kind ++ codes " '" ++ map_name ++ codes "'")
    key_data ← make_key_data c key_arg
    req ← or_panic (encoder map_name key_data 0)
    resp ← invoke c (on_key key_data) req
    decoder resp

  abbrev pub rows_or_no_values : List (Row c.Value) → Action c Unit
  rows_or_no_values [] = println_unnecessary c (codes "OK No values.")
  rows_or_no_values (row ∷ rows) = add_output_rows c (row ∷ rows)

  -- MapGetCommand.Exec
  unfoldable pub exec_get :
      Structure
      → (Text → Bytes → ℕ → Option Message)
      → (Message → Action c (List (Row c.Value)))
      → Action c Unit
  exec_get kind encoder decoder =
      execute_blocking c (get_body kind encoder decoder) >>= rows_or_no_values

  unfoldable pub map_remove_body :
      Structure
      → (Text → Bytes → ℕ → Option Message)
      → (Message → Action c (List (Row c.Value)))
      → Action c (List (Row c.Value))
  map_remove_body kind encoder decoder = do
    client_internal c
    increment_cluster_metric c (metric_of kind)
    set_text c
        (codes "Removing from " ++ structure_name c kind ++ codes " '" ++ map_name ++ codes "'")
    key_data ← make_key_data c key_arg
    req ← or_panic (encoder map_name key_data 0)
    resp ← invoke c (on_key key_data) req
    decoder resp

  -- MapRemoveCommand.Exec
  unfoldable pub exec_map_remove :
      Structure
      → (Text → Bytes → ℕ → Option Message)
      → (Message → Action c (List (Row c.Value)))
      → Action c Unit
  exec_map_remove kind encoder decoder = do
    rows ← execute_blocking c (map_remove_body kind encoder decoder)
    println_unnecessary c (
        codes "OK Removed the entry from "
        ++ structure_name c kind
        ++ codes " '"
        ++ map_name
        ++ codes "'.\n")
    add_output_rows c rows
