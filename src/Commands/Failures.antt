-- ===== src/Commands/Failures.antt =====
-- How a command fails.
use hazelcast_commandline_cl.Prelude.{◌≢◌, List, codes}
use hazelcast_commandline_cl.Wire.Protocol.{Protocol}
use hazelcast_commandline_cl.Commands.Context.{
  Client, Row, Outcome, ok, failed, panicked, queue_structure,
}
use hazelcast_commandline_cl.Commands.Action.{State, Action, pure, continue_or, handle}
use hazelcast_commandline_cl.Commands.Common.{add_output_rows, execute_blocking}
use hazelcast_commandline_cl.Commands.Batches.{add_items_body, exec_queue_offer}

module _ {p : Protocol} (c : Client p) where
  abbrev pub NeverFails : {A : Type 0} → Action c A → Type 0
  NeverFails m = (s : State c) (e : c.Error) → (m s).0 ≢ failed e

  ok-ne-failed : {A : Type 0} (a : A) (e : c.Error) → ok a ≢ failed e
  ok-ne-failed a e = cc

  continue_or-NeverFails :
      {A B : Type 0} (r : Outcome c.Error A) (f : A → Action c B) (b : B)
      → ((a : A) → NeverFails (f a))
      → NeverFails (continue_or r f (λ e. pure b))
  unfolding pure
  continue_or-NeverFails (ok a) f b h = h a
  continue_or-NeverFails (failed e) f b h = λ s e'. ok-ne-failed b e'
  continue_or-NeverFails panicked f b h = λ s e'. cc

  -- If rows can be printed, the command to offer values to a queue does not fail: not when it cannot
  -- connect, convert or add a value, and not when it is cancelled.
  pub exec_queue_offer-NeverFails :
      ((rows : List (Row c.Value)) → NeverFails (add_output_rows c rows))
      → NeverFails (exec_queue_offer c)
  unfolding exec_queue_offer handle
  exec_queue_offer-NeverFails prints s =
      let (r, s') = execute_blocking c (add_items_body c queue_structure (codes "total.queue")) s in
      continue_or-NeverFails r (add_output_rows c) tt prints s'
