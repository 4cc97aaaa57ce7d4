-- ===== src/Commands/Requests/Batches.antt =====
-- The requests of the set and queue commands.
use mathlib.Core.List.{Memᴰ}
use hazelcast_commandline_cl.Prelude.{ℕ, ◌≡◌, some, List, [], ◌∷◌, Text, codes, arith}
use hazelcast_commandline_cl.Prelude.Int.{ℤ, pos, negsuc}
use hazelcast_commandline_cl.Wire.Bytes.{Bytes}
use hazelcast_commandline_cl.Wire.Protocol.{Protocol}
use hazelcast_commandline_cl.Codec.Calls.{encode, set_remove, set_get_all, queue_poll}
use hazelcast_commandline_cl.Commands.Context.{
  Client, Row, Structure, set_structure, queue_structure,
}
use hazelcast_commandline_cl.Commands.Action.{on_partition, invoked, called, adding}
use hazelcast_commandline_cl.Commands.Batches.{
  name, add_item, add_items_body, exec_set_add, exec_queue_offer, remove_item, set_remove_body,
  exec_set_remove, item_row, set_get_all_body, rows_or_note, exec_set_get_all, poll_once, poll_body,
  poll_count, exec_queue_poll,
}
use hazelcast_commandline_cl.Commands.Sends.{
  Sends, Sends-raise, Sends-traced, Sends-bind, Sends-pure, Sends-handle, Sends-execute_blocking,
  Sends-bind-or_panic, Sends-each_row_among, sends_rules,
}
use hazelcast_commandline_cl.Commands.Registry.{
  Command, set_add_command, set_remove_command, set_get_all_command, queue_offer_command,
  queue_poll_command,
}
use hazelcast_commandline_cl.Commands.Requests.{
  set_removes, set_lists, queue_polls, set_adds, queue_offers, Asks, by_proxy, encoded-Asks,
}
use hazelcast_commandline_cl.Commands.Requests.Quiet.{
  quiet_rules, Sends-println_unnecessary, Sends-add_output_rows,
}
use hazelcast_commandline_cl.Commands.Requests.Binds.{bind_rules, Sends-bind-make_value_data}
use hazelcast_commandline_cl.Commands.Arguments.{IsValue, IsOneOf, IsPartition}

module _ {p : Protocol} (c : Client p) where
  open p use {Message}

  add_item-Sends :
      (k : Command) (kind : Structure) (proxy : c.Proxy) (arg : Text)
      → ((vd : Bytes)
          → IsOneOf c (c.strings_arg (codes "value")) vd
          → Asks c k (called kind (name c) (adding vd)))
      → Memᴰ arg (c.strings_arg (codes "value"))
      → Sends (Asks c k) (add_item c kind proxy arg)
  unfolding add_item
  add_item-Sends k kind proxy arg asked among = Sends-bind-make_value_data arg _ (λ vd is_value.
      Sends-bind _ _
        (Sends-traced _ _ (asked vd (record { text = arg; among = among; is_value = is_value })))
        (λ added. Sends-pure _))

  add_items_body-Sends :
      (k : Command) (kind : Structure) (metric : Text)
      → ((vd : Bytes)
          → IsOneOf c (c.strings_arg (codes "value")) vd
          → Asks c k (called kind (name c) (adding vd)))
      → Sends (Asks c k) (add_items_body c kind metric)
  unfolding add_items_body
  add_items_body-Sends k kind metric asked =
      let item = λ (proxy : c.Proxy) (arg : Text). add_item-Sends k kind proxy arg asked in
      search (item, Sends-each_row_among, sends_rules, quiet_rules) depth 40

  pub exec_set_add-Sends : Sends (Asks c set_add_command) (exec_set_add c)
  unfolding exec_set_add
  exec_set_add-Sends =
      Sends-bind _ _
        (Sends-execute_blocking _ (
          add_items_body-Sends set_add_command set_structure (codes "total.set")
            (λ vd is_value. by_proxy (set_adds vd is_value))))
        Sends-add_output_rows

  pub exec_queue_offer-Sends : Sends (Asks c queue_offer_command) (exec_queue_offer c)
  unfolding exec_queue_offer
  exec_queue_offer-Sends =
      Sends-handle _ _ _
        (Sends-execute_blocking _ (
          add_items_body-Sends queue_offer_command queue_structure (codes "total.queue")
            (λ vd is_value. by_proxy (queue_offers vd is_value))))
        Sends-add_output_rows (λ e. Sends-pure tt)

  remove-asked :
      (pid : ℕ) (vd : Bytes)
      → IsPartition c (name c) pid
      → IsOneOf c (c.strings_arg (codes "value")) vd
      → (m : _) → encode p (set_remove (name c) vd) ≡ some m
      → Asks c set_remove_command (invoked (on_partition pid) m)
  remove-asked pid vd found is_value m =
      encoded-Asks (set_remove (name c) vd) m (set_removes pid vd found is_value) tt

  remove_item-Sends :
      (arg : Text)
      → Memᴰ arg (c.strings_arg (codes "value"))
      → Sends (Asks c set_remove_command) (remove_item c arg)
  unfolding remove_item encode
  remove_item-Sends arg among =
      let asked =
        λ (pid : ℕ) (vd : Bytes) (found : IsPartition c (name c) pid) (is_value : IsValue c arg vd).
          remove-asked pid vd found (record { text = arg; among = among; is_value = is_value }) in
      search (asked, Sends-bind-or_panic, bind_rules, sends_rules, quiet_rules) depth 40

  pub exec_set_remove-Sends : Sends (Asks c set_remove_command) (exec_set_remove c)
  unfolding exec_set_remove set_remove_body
  exec_set_remove-Sends =
      search (remove_item-Sends, Sends-each_row_among, sends_rules, quiet_rules) depth 40

  lists-asked :
      (pid : ℕ)
      → IsPartition c (name c) pid
      → (m : _) → encode p (set_get_all (name c)) ≡ some m
      → Asks c set_get_all_command (invoked (on_partition pid) m)
  lists-asked pid found m = encoded-Asks (set_get_all (name c)) m (set_lists pid found) tt

  rows_or_note-Sends :
      (rows : List (Row c.Value)) → Sends (Asks c set_get_all_command) (rows_or_note c rows)
  rows_or_note-Sends [] = Sends-println_unnecessary _
  rows_or_note-Sends (row ∷ rows) = Sends-add_output_rows (row ∷ rows)

  pub exec_set_get_all-Sends : Sends (Asks c set_get_all_command) (exec_set_get_all c)
  unfolding exec_set_get_all set_get_all_body item_row encode
  exec_set_get_all-Sends =
      search
        (lists-asked, rows_or_note-Sends, Sends-bind-or_panic, bind_rules, sends_rules, quiet_rules)
        depth 40

  poll-asked :
      (pid : ℕ)
      → IsPartition c (name c) pid
      → (m : _) → encode p (queue_poll (name c) 0) ≡ some m
      → Asks c queue_poll_command (invoked (on_partition pid) m)
  poll-asked pid found m =
      encoded-Asks (queue_poll (name c) 0) m (queue_polls pid found) (omega arith, tt)

  poll_count-Sends : (i : ℤ) → Sends (Asks c queue_poll_command) (poll_count c i)
  unfolding poll_body poll_once encode
  poll_count-Sends (pos count) =
      search (poll-asked, Sends-bind-or_panic, bind_rules, sends_rules, quiet_rules) depth 40
  poll_count-Sends (negsuc n) = Sends-raise _

  pub exec_queue_poll-Sends : Sends (Asks c queue_poll_command) (exec_queue_poll c)
  unfolding exec_queue_poll
  exec_queue_poll-Sends = poll_count-Sends _
