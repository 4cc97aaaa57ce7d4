-- ===== src/Commands/Batches.antt =====
-- base/commands/set and base/commands/queue: the commands that make one call for each argument.
use hazelcast_commandline_cl.Prelude.{ℕ, Bool, some, List, [], ◌∷◌, ◌++◌, Text, codes, replicate}
use hazelcast_commandline_cl.Prelude.Int.{ℤ, pos, negsuc}
use hazelcast_commandline_cl.Wire.Bytes.{Bytes}
use hazelcast_commandline_cl.Wire.Protocol.{Protocol}
use hazelcast_commandline_cl.Codec.Requests.OtherOps.{
  encode_queue_poll_request, encode_set_get_all_request, encode_set_remove_request,
}
use hazelcast_commandline_cl.Codec.Responses.{
  decode_set_remove_response, decode_set_get_all_response, decode_queue_poll_response,
}
use hazelcast_commandline_cl.Commands.Context.{
  Client, Row, Structure, set_structure, queue_structure,
}
use hazelcast_commandline_cl.Commands.Action.{
  Action, on_partition, called, adding, pure, raise, or_panic, outside, traced, ◌>>=◌, ◌>>◌, handle,
}
use hazelcast_commandline_cl.Commands.Labels.{type_bool, type_string}
use hazelcast_commandline_cl.Commands.Common.{
  invoke, set_text, println_unnecessary, add_output_rows, execute_blocking, client_internal,
  increment_cluster_metric, string_to_partition_id, make_value_data, typed_row, decode_or_label,
  each_row, structure_name,
}

module _ {p : Protocol} (c : Client p) where
  open p use {Message}

  abbrev pub name : Text
  name = c.string_prop (codes "name")

  abbrev added_row : Text → Bool → Row c.Value
  added_row arg added =
      record { name = codes "Value"; type_of = type_string; value = c.text_value arg }
      ∷ record { name = codes "Added"; type_of = type_bool; value = c.bool_value added }
      ∷ []

  unfoldable pub add_item : Structure → c.Proxy → Text → Action c (Row c.Value)
  add_item kind proxy arg = do
    vd ← make_value_data c arg
    added ← traced (called kind name (adding vd)) (c.proxy_add proxy vd)
    pure (added_row arg added)

  -- The body of `set add` and of `queue offer`.
  unfoldable pub add_items_body : Structure → Text → Action c (List (Row c.Value))
  add_items_body kind metric = do
    client_internal c
    increment_cluster_metric c metric
    proxy ← outside (c.get_proxy kind name)
    set_text c
        (codes "Adding values into " ++ structure_name c kind ++ codes " '" ++ name ++ codes "'")
    each_row c (add_item kind proxy) (c.strings_arg (codes "value"))

  -- set: AddCommand.Exec
  unfoldable pub exec_set_add : Action c Unit
  exec_set_add =
      execute_blocking c (add_items_body set_structure (codes "total.set")) >>= add_output_rows c

  -- QueueOfferCommand.Exec: an error ends the command, without an error.
  unfoldable pub exec_queue_offer : Action c Unit
  exec_queue_offer =
      handle (execute_blocking c (add_items_body queue_structure (codes "total.queue")))
        (add_output_rows c) (λ e. pure tt)

  unfoldable pub remove_item : Text → Action c (Row c.Value)
  remove_item arg = do
    vd ← make_value_data c arg
    req ← or_panic (encode_set_remove_request p name vd)
    pid ← string_to_partition_id c name
    sv ← invoke c (on_partition pid) req
    resp ← or_panic (decode_set_remove_response p sv)
    pure (
        typed_row c (codes "this") (codes "this_type") type_bool (c.bool_value resp)
          (c.bool_prop (codes "show-type")))

  unfoldable pub set_remove_body : Action c (List (Row c.Value))
  set_remove_body = do
    client_internal c
    increment_cluster_metric c (codes "total.set")
    set_text c (codes "Removing from Set '" ++ name ++ codes "'")
    each_row c remove_item (c.strings_arg (codes "value"))

  -- set: RemoveCommand.Exec
  unfoldable pub exec_set_remove : Action c Unit
  exec_set_remove = execute_blocking c set_remove_body >>= add_output_rows c

  unfoldable pub item_row : Bytes → Action c (Row c.Value)
  item_row r = do
    val ← decode_or_label c (some r)
    pure (
        typed_row c (codes "Value") (codes "this_type") (c.data_type (some r)) val
          (c.bool_prop (codes "show-type")))

  unfoldable pub set_get_all_body : Action c (List (Row c.Value))
  set_get_all_body = do
    client_internal c
    increment_cluster_metric c (codes "total.set")
    req ← or_panic (encode_set_get_all_request p name)
    pid ← string_to_partition_id c name
    set_text c (codes "Removing from Set '" ++ name ++ codes "'")
    resp ← invoke c (on_partition pid) req
    items ← or_panic (decode_set_get_all_response p resp)
    each_row c item_row items

  abbrev pub rows_or_note : List (Row c.Value) → Action c Unit
  rows_or_note [] = println_unnecessary c (codes "OK No items in the set.")
  rows_or_note (row ∷ rows) = add_output_rows c (row ∷ rows)

  -- set: GetAllCommand.Exec
  unfoldable pub exec_set_get_all : Action c Unit
  exec_set_get_all = execute_blocking c set_get_all_body >>= rows_or_note

  unfoldable pub poll_once : ℕ → Message → ℕ → Action c (Row c.Value)
  poll_once pid req _ = do
    rv ← invoke c (on_partition pid) req
    raw ← or_panic (decode_queue_poll_response p rv)
    value ← decode_or_label c raw
    pure (
        typed_row c (codes "this") (codes "this_type") (c.data_type raw) value
          (c.bool_prop (codes "show-type")))

  unfoldable pub poll_body : ℕ → Action c (List (Row c.Value))
  poll_body count = do
    client_internal c
    increment_cluster_metric c (codes "total.queue")
    set_text c (codes "Polling from Queue '" ++ name ++ codes "'")
    req ← or_panic (encode_queue_poll_request p name 0)
    pid ← string_to_partition_id c name
    each_row c (poll_once pid req) (replicate count 0)

  abbrev pub poll_count : ℤ → Action c Unit
  poll_count (pos count) = execute_blocking c (poll_body count) >>= add_output_rows c
  poll_count (negsuc n) = raise (c.error_of (codes "count cannot be negative"))

  -- PollCommand.Exec
  unfoldable pub exec_queue_poll : Action c Unit
  exec_queue_poll = poll_count (c.int_prop (codes "count"))
