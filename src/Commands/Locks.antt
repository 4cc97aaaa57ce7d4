-- ===== src/Commands/Locks.antt =====
-- base/commands/map_common.go: the lock commands of maps and multimaps.
use hazelcast_commandline_cl.Prelude.{Bool, false, List, [], ◌∷◌, ◌++◌, codes, if◌then◌else◌}
use hazelcast_commandline_cl.Prelude.Int.{ℤ}
use hazelcast_commandline_cl.Wire.Protocol.{Protocol}
use hazelcast_commandline_cl.Commands.Context.{Client, Row, Structure}
use hazelcast_commandline_cl.Commands.Action.{
  Action, called, locking, locking_for, trying, trying_for, pure, traced, ◌>>=◌, ◌>>◌, handle,
}
use hazelcast_commandline_cl.Commands.Labels.{type_bool, same_int}
use hazelcast_commandline_cl.Commands.Common.{
  set_text, println_unnecessary, add_output_rows, execute_blocking, increment_cluster_metric,
  ttl_unset, make_value_from_string, int_or_unset, typed_row, structure_name, get_structure,
}
use hazelcast_commandline_cl.Commands.Maps.{map_name, key_arg, show_type, metric_of}

module _ {p : Protocol} (c : Client p) where
  abbrev pub key_value : Action c c.Value
  key_value = make_value_from_string c (key_arg c) (c.string_prop (codes "key-type"))

  abbrev pub lease : ℤ
  lease = int_or_unset c (codes "ttl")

  unfoldable pub lock_key : Structure → c.Proxy → c.Value → Action c Unit
  lock_key kind m key =
      if same_int lease ttl_unset
      then traced (called kind (map_name c) (locking key)) (c.lock m key)
      else traced (called kind (map_name c) (locking_for key lease)) (c.lock_with_lease m key lease)

  unfoldable pub lock_body : Structure → Action c Unit
  lock_body kind = do
    key ← key_value
    m ← get_structure c kind
    increment_cluster_metric c (metric_of c kind)
    set_text c (
        codes "Locking the key in "
        ++ structure_name c kind
        ++ codes " '"
        ++ map_name c
        ++ codes "'")
    lock_key kind m key

  -- LockCommand.Exec
  unfoldable pub exec_lock : Structure → Action c Unit
  exec_lock kind = do
    execute_blocking c (lock_body kind)
    println_unnecessary c (
        codes "OK Locked the key in "
        ++ structure_name c kind
        ++ codes " '"
        ++ map_name c
        ++ codes "'.")

  unfoldable pub try_key : Structure → c.Proxy → c.Value → Action c Bool
  try_key kind m key =
      if same_int lease ttl_unset
      then traced (called kind (map_name c) (trying key)) (c.try_lock m key)
      else traced (called kind (map_name c) (trying_for key lease))
          (c.try_lock_with_lease m key lease)

  -- The error of the try is not looked at: its result is false then.
  unfoldable pub try_lock_body : Structure → Action c (List (Row c.Value))
  try_lock_body kind = do
    set_text c (codes "Locking key in map " ++ map_name c)
    m ← get_structure c kind
    increment_cluster_metric c (metric_of c kind)
    key ← key_value
    locked ← handle (try_key kind m key) pure (λ e. pure false)
    pure (
        typed_row c (codes "Locked") (codes "Type") type_bool (c.bool_value locked) (show_type c)
        ∷ [])

  -- MapTryLockCommand.Exec
  unfoldable pub exec_try_lock : Structure → Action c Unit
  exec_try_lock kind = execute_blocking c (try_lock_body kind) >>= add_output_rows c
