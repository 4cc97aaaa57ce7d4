-- ===== src/Commands/Maps/Puts.antt =====
-- base/commands/map: `set` and `load-all`; base/commands/multimap: `put`.
use hazelcast_commandline_cl.Prelude.{ℕ, Option, List, [], ◌∷◌, ◌++◌, Text, codes, if◌then◌else◌}
use hazelcast_commandline_cl.Prelude.Int.{ℤ, pos, ltb_ℤ}
use hazelcast_commandline_cl.Wire.Bytes.{Bytes}
use hazelcast_commandline_cl.Wire.Protocol.{Protocol}
use hazelcast_commandline_cl.Codec.Requests.MapOps.{
  encode_map_load_all_request, encode_map_load_given_keys_request, encode_map_set_request,
  encode_map_set_with_max_idle_request,
}
use hazelcast_commandline_cl.Codec.Requests.MultiMapOps.{encode_multi_map_put_request}
use hazelcast_commandline_cl.Codec.Responses.{decode_multi_map_put_response}
use hazelcast_commandline_cl.Commands.Context.{Client, Row, map_structure, int64_bits}
use hazelcast_commandline_cl.Commands.Action.{
  Action, on_key, on_random, pure, or_panic, outside, ◌>>=◌, ◌>>◌,
}
use hazelcast_commandline_cl.Commands.Labels.{type_bool}
use hazelcast_commandline_cl.Commands.Common.{
  invoke, set_text, println_unnecessary, add_output_rows, execute_blocking, client_internal,
  increment_cluster_metric, make_key_data, make_key_value_data, int_or_unset, typed_row,
  get_structure,
}
use hazelcast_commandline_cl.Commands.Maps.{map_name, key_arg, show_type}

module _ {p : Protocol} (c : Client p) where
  open p use {Message}

  abbrev value_arg : Text
  value_arg = c.string_arg (codes "value")

  abbrev pub ttl : ℕ
  ttl = int64_bits (int_or_unset c (codes "ttl"))

  abbrev pub max_idle : ℤ
  max_idle = int_or_unset c (codes "max-idle")

  unfoldable pub set_request : Bytes → Bytes → Option Message
  set_request kd vd =
      if ltb_ℤ max_idle (pos 0)
      then encode_map_set_request p (map_name c) kd vd 0 ttl
      else encode_map_set_with_max_idle_request p (map_name c) kd vd 0 ttl (int64_bits max_idle)

  unfoldable pub map_set_body : Action c Unit
  map_set_body = do
    client_internal c
    increment_cluster_metric c (codes "total.map")
    set_text c (codes "Setting value into Map '" ++ map_name c ++ codes "'")
    get_structure c map_structure
    (kd, vd) ← make_key_value_data c (key_arg c) value_arg
    req ← or_panic (set_request kd vd)
    resp ← invoke c (on_key kd) req
    pure tt

  -- MapSetCommand.Exec
  unfoldable pub exec_map_set : Action c Unit
  exec_map_set = do
    execute_blocking c map_set_body
    println_unnecessary c (codes "OK Set the value into the Map '" ++ map_name c ++ codes "'.")

  abbrev pub keys_of : List Text → Action c (List Bytes)
  keys_of [] = pure []
  keys_of (key ∷ keys) = do
    key_data ← make_key_data c key
    rest ← keys_of keys
    pure (key_data ∷ rest)

  unfoldable pub load_request : List Bytes → Option Message
  load_request [] = encode_map_load_all_request p (map_name c) (c.bool_prop (codes "replace"))
  load_request (key ∷ keys) =
      encode_map_load_given_keys_request p (map_name c) (key ∷ keys) (c.bool_prop (codes "replace"))

  unfoldable pub load_all_body : Action c Unit
  load_all_body = do
    client_internal c
    increment_cluster_metric c (codes "total.map")
    keys ← keys_of (c.strings_arg (codes "key"))
    req ← or_panic (load_request keys)
    set_text c (codes "Loading keys into the Map '" ++ map_name c ++ codes "'")
    resp ← invoke c on_random req
    pure tt

  -- MapLoadAllCommand.Exec
  unfoldable pub exec_load_all : Action c Unit
  exec_load_all = do
    execute_blocking c load_all_body
    println_unnecessary c (codes "OK Loaded the keys into Map '" ++ map_name c ++ codes "'")

  unfoldable pub multi_map_put_body : Action c (List (Row c.Value))
  multi_map_put_body = do
    outside c.connect
    increment_cluster_metric c (codes "total.multimap")
    set_text c (codes "Putting value into MultiMap '" ++ map_name c ++ codes "'")
    (kd, vd) ← make_key_value_data c (key_arg c) value_arg
    req ← or_panic (encode_multi_map_put_request p (map_name c) kd vd 0)
    resp ← invoke c (on_key kd) req
    value ← or_panic (decode_multi_map_put_response p resp)
    pure (
        typed_row c (codes "this") (codes "this_type") type_bool (c.bool_value value) (show_type c)
        ∷ [])

  -- MultiMapPutCommand.Exec
  unfoldable pub exec_multi_map_put : Action c Unit
  exec_multi_map_put = execute_blocking c multi_map_put_body >>= add_output_rows c
