-- ===== src/Commands/Structures.antt =====
-- base/commands/common.go: the commands that destroy, clear and measure a data structure.
use hazelcast_commandline_cl.Prelude.{Bool, true, false, [], ◌∷◌, ◌++◌, Text, codes, if◌then◌else◌}
use hazelcast_commandline_cl.Prelude.Int.{ℤ}
use hazelcast_commandline_cl.Wire.Protocol.{Protocol}
use hazelcast_commandline_cl.Commands.Context.{Client, Structure}
use hazelcast_commandline_cl.Commands.Action.{
  Action, called, destroying, clearing, pure, raise, outside, traced, ◌>>=◌, ◌>>◌, handle,
}
use hazelcast_commandline_cl.Commands.Labels.{type_int32}
use hazelcast_commandline_cl.Commands.Common.{
  set_text, println_unnecessary, add_output_rows, execute_blocking, increment_cluster_metric,
  typed_row, structure_name, get_structure,
}
use hazelcast_commandline_cl.Commands.Batches.{name}

module _ {p : Protocol} (c : Client p) where
  abbrev pub proceed_if : Bool → Action c Unit
  proceed_if true = pure tt
  proceed_if false = raise c.user_cancelled

  abbrev pub auto_yes : Bool
  auto_yes = c.bool_prop (codes "yes")

  -- The question, unless it is skipped: an error or another answer than yes cancels the command.
  unfoldable pub confirm : Text → Action c Unit
  confirm question =
      if auto_yes
      then pure tt
      else handle (outside (c.yes_no question)) proceed_if (λ e. raise c.user_cancelled)

  unfoldable pub destroy_body : Structure → Text → Action c Unit
  destroy_body kind metric = do
    m ← get_structure c kind
    increment_cluster_metric c metric
    set_text c (codes "Destroying " ++ structure_name c kind ++ codes " '" ++ name c ++ codes "'")
    traced (called kind (name c) destroying) (c.proxy_destroy m)

  -- DestroyCommand.Exec
  unfoldable pub exec_destroy : Structure → Text → Action c Unit
  exec_destroy kind metric = do
    confirm (
        structure_name c kind
        ++ codes " '"
        ++ name c
        ++ codes "' will be deleted irreversibly, proceed?")
    execute_blocking c (destroy_body kind metric)
    println_unnecessary c
        (codes "OK Destroyed " ++ structure_name c kind ++ codes " '" ++ name c ++ codes "'.")

  unfoldable pub clear_body : Structure → Text → Action c Unit
  clear_body kind metric = do
    m ← get_structure c kind
    increment_cluster_metric c metric
    set_text c (codes "Clearing " ++ structure_name c kind ++ codes " '" ++ name c ++ codes "'")
    traced (called kind (name c) clearing) (c.proxy_clear m)

  -- ClearCommand.Exec
  unfoldable pub exec_clear : Structure → Text → Action c Unit
  exec_clear kind metric = do
    confirm (
        codes "Content of "
        ++ structure_name c kind
        ++ codes " '"
        ++ name c
        ++ codes "' will be deleted irreversibly. Proceed?")
    execute_blocking c (clear_body kind metric)
    println_unnecessary c
        (codes "OK Cleared " ++ structure_name c kind ++ codes " '" ++ name c ++ codes "'.")

  unfoldable pub size_body : Structure → Text → Action c ℤ
  size_body kind metric = do
    m ← get_structure c kind
    increment_cluster_metric c metric
    set_text c
        (codes "Getting the size of " ++ structure_name c kind ++ codes " '" ++ name c ++ codes "'")
    outside (c.proxy_size m)

  -- SizeCommand.Exec
  unfoldable pub exec_size : Structure → Text → Action c Unit
  exec_size kind metric = do
    size ← execute_blocking c (size_body kind metric)
    add_output_rows c (typed_row c (codes "Size") [] type_int32 (c.int32_value size) false ∷ [])
