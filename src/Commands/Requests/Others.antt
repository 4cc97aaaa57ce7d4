-- ===== src/Commands/Requests/Others.antt =====
-- The calls of proxies that lock, destroy and clear.
use mathlib.Core.Bool.{true≢false}
use hazelcast_commandline_cl.Prelude.{
  ◌≡◌, ◌≢◌, ap, sym, ◌∙◌, Bool, true, false, Text, codes, arith, ==_iff,
}
use hazelcast_commandline_cl.Prelude.Int.{ℤ, pos, negsuc}
use hazelcast_commandline_cl.Wire.Protocol.{Protocol}
use hazelcast_commandline_cl.Commands.Context.{Client, Structure}
use hazelcast_commandline_cl.Commands.Action.{called, destroying, clearing}
use hazelcast_commandline_cl.Commands.Labels.{same_int}
use hazelcast_commandline_cl.Commands.Common.{ttl_unset}
use hazelcast_commandline_cl.Commands.Locks.{
  lease, lock_key, lock_body, exec_lock, try_key, try_lock_body, exec_try_lock,
}
use hazelcast_commandline_cl.Commands.Structures.{
  auto_yes, proceed_if, confirm, destroy_body, exec_destroy, clear_body, exec_clear, size_body,
  exec_size,
}
use hazelcast_commandline_cl.Commands.Sends.{
  Sends, Sends-if, Sends-pure, Sends-raise, Sends-handle, Sends-outside, Sends-traced, sends_rules,
}
use hazelcast_commandline_cl.Commands.Registry.{
  Command, lock_command, try_lock_command, destroy_command, clear_command, size_command,
}
use hazelcast_commandline_cl.Commands.Requests.{
  locks, locks_for, tries, tries_for, destroys, clears, structure, Asks, by_proxy,
}
use hazelcast_commandline_cl.Commands.Requests.Quiet.{quiet_rules}
use hazelcast_commandline_cl.Commands.Requests.Binds.{bind_rules}
use hazelcast_commandline_cl.Commands.Arguments.{IsRead}

same_int-eq : (a b : ℤ) → same_int a b ≡ true → a ≡ b
same_int-eq (pos a) (pos b) h = ap pos ((==_iff a b).0 h)
same_int-eq (negsuc a) (negsuc b) h = ap negsuc ((==_iff a b).0 h)
same_int-eq (pos a) (negsuc b) h = ground arith
same_int-eq (negsuc a) (pos b) h = ground arith

same_int-ne : (a : ℤ) → same_int a ttl_unset ≡ false → a ≢ ttl_unset
same_int-ne a h = λ e. true≢false (sym (ap (λ b. same_int b ttl_unset) e) ∙ h)

module _ {p : Protocol} (c : Client p) where
  lock_key-Sends :
      (kind : Structure) (m : c.Proxy) (key : c.Value)
      → IsRead c (codes "key-type") (c.string_arg (codes "key")) key
      → Sends (Asks c (lock_command kind)) (lock_key c kind m key)
  unfolding lock_key
  lock_key-Sends kind m key read =
      Sends-if (same_int (lease c) ttl_unset) _ _
        (λ unset. Sends-traced _ _ (by_proxy (locks kind key read (same_int-eq _ _ unset))))
        (λ given. Sends-traced _ _ (by_proxy (locks_for kind key read (same_int-ne _ given))))

  pub exec_lock-Sends : (kind : Structure) → Sends (Asks c (lock_command kind)) (exec_lock c kind)
  unfolding exec_lock lock_body
  exec_lock-Sends kind = search (lock_key-Sends, bind_rules, sends_rules, quiet_rules) depth 40

  try_key-Sends :
      (kind : Structure) (m : c.Proxy) (key : c.Value)
      → IsRead c (codes "key-type") (c.string_arg (codes "key")) key
      → Sends (Asks c (try_lock_command kind)) (try_key c kind m key)
  unfolding try_key
  try_key-Sends kind m key read =
      Sends-if (same_int (lease c) ttl_unset) _ _
        (λ unset. Sends-traced _ _ (by_proxy (tries kind key read (same_int-eq _ _ unset))))
        (λ given. Sends-traced _ _ (by_proxy (tries_for kind key read (same_int-ne _ given))))

  pub exec_try_lock-Sends :
      (kind : Structure) → Sends (Asks c (try_lock_command kind)) (exec_try_lock c kind)
  unfolding exec_try_lock try_lock_body
  exec_try_lock-Sends kind = search (try_key-Sends, bind_rules, sends_rules, quiet_rules) depth 40

  proceed_if-Sends : (k : Command) (yes : Bool) → Sends (Asks c k) (proceed_if c yes)
  proceed_if-Sends k true = Sends-pure tt
  proceed_if-Sends k false = Sends-raise _

  confirm-Sends : (k : Command) (question : Text) → Sends (Asks c k) (confirm c question)
  unfolding confirm
  confirm-Sends k question =
      Sends-if (auto_yes c) _ _ (λ yes. Sends-pure tt)
        (λ no. Sends-handle _ _ _ (Sends-outside _) (proceed_if-Sends k) (λ e. Sends-raise _))

  pub exec_destroy-Sends :
      (kind : Structure) (metric : Text)
      → Sends (Asks c (destroy_command kind metric)) (exec_destroy c kind metric)
  unfolding exec_destroy destroy_body
  exec_destroy-Sends kind metric =
      let asked : Asks c (destroy_command kind metric) (called kind (structure c) destroying) =
        by_proxy (destroys kind metric) in
      search (asked, confirm-Sends, Sends-traced, sends_rules, quiet_rules) depth 40

  pub exec_clear-Sends :
      (kind : Structure) (metric : Text)
      → Sends (Asks c (clear_command kind metric)) (exec_clear c kind metric)
  unfolding exec_clear clear_body
  exec_clear-Sends kind metric =
      let asked : Asks c (clear_command kind metric) (called kind (structure c) clearing) =
        by_proxy (clears kind metric) in
      search (asked, confirm-Sends, Sends-traced, sends_rules, quiet_rules) depth 40

  pub exec_size-Sends :
      (kind : Structure) (metric : Text)
      → Sends (Asks c (size_command kind metric)) (exec_size c kind metric)
  unfolding exec_size size_body
  exec_size-Sends kind metric = search (sends_rules, quiet_rules) depth 40
