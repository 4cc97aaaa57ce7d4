-- ===== src/Commands/Requests/Lists.antt =====
-- The requests of the list commands.
use hazelcast_commandline_cl.Prelude.{
  ℕ, ◌-◌, ◌%◌, ◌^◌, ◌<◌, ◌≡◌, refl, sym, ◌∙◌, subst, Bool, true, false, some, [], ◌∷◌, ltb, Text,
  codes, arith, Bool-cases, inl, inr, if◌then◌else◌,
}
use mathlib.Core.List.{cons≢nil}
use hazelcast_commandline_cl.Prelude.Int.{ℤ, pos, negsuc, ltb_ℤ}
use hazelcast_commandline_cl.Wire.Bytes.{Bytes}
use hazelcast_commandline_cl.Wire.Protocol.{Protocol}
use hazelcast_commandline_cl.Codec.Calls.{
  encode, list_add, list_add_with_index, list_contains, list_remove, list_remove_with_index,
  list_set,
}
use hazelcast_commandline_cl.Commands.Context.{Client, int32_bits, int64_bits}
use hazelcast_commandline_cl.Commands.Action.{Action, raise, on_partition, invoked}
use hazelcast_commandline_cl.Commands.Lists.{
  list_name, add_list_request, list_add_body, exec_list_add, list_contains_body, exec_list_contains,
  remove_request, removed_row, remove_body, remove_from_list, exec_list_remove_index,
  exec_list_remove_value, convert_data_to_row, list_set_body, exec_list_set,
}
use hazelcast_commandline_cl.Commands.Sends.{
  Sends, Sends-bind-or_panic, Sends-bind-bind, Sends-raise, sends_rules,
}
use hazelcast_commandline_cl.Commands.Registry.{
  Command, list_add_command, list_contains_command, list_remove_index_command,
  list_remove_value_command, list_set_command,
}
use hazelcast_commandline_cl.Commands.Requests.{
  list_adds, list_adds_at, list_asks, list_removes_at, list_removes, list_removes_first, list_sets,
  Asks, encoded-Asks,
}
use hazelcast_commandline_cl.Commands.Requests.Quiet.{quiet_rules}
use hazelcast_commandline_cl.Commands.Requests.Binds.{bind_rules}
use hazelcast_commandline_cl.Commands.Arguments.{IsValue, IsPartition}

pub int32_bits_range : (i : ℤ) → int32_bits i < 256 ^ 4
int32_bits_range (pos n) = omega arith
int32_bits_range (negsuc n) = omega arith

pub int64_bits_range : (i : ℤ) → int64_bits i < 256 ^ 8
int64_bits_range (pos n) = omega arith
int64_bits_range (negsuc n) = omega arith

module _ {p : Protocol} (c : Client p) where
  open p use {Message}

  add-asked :
      (pid : ℕ) (vd : Bytes)
      → IsPartition c (list_name c) pid
      → IsValue c (c.string_arg (codes "value")) vd
      → (m : Message) → add_list_request c vd ≡ some m
      → Asks c list_add_command (invoked (on_partition pid) m)
  unfolding encode
  add-asked pid vd found is_value m h =
      elim (Bool-cases (ltb_ℤ (c.int_prop (codes "index")) (pos 0))) [
        | inl below ↦
            encoded-Asks (list_add (list_name c) vd) m (list_adds pid vd found is_value below) tt
              (rw below at h)
        | inr above ↦
            encoded-Asks
              (list_add_with_index (list_name c) (int32_bits (c.int_prop (codes "index"))) vd) m
              (list_adds_at pid vd found is_value above)
              (int32_bits_range (c.int_prop (codes "index")), tt) (rw above at h)
      ]

  pub exec_list_add-Sends : Sends (Asks c list_add_command) (exec_list_add c)
  unfolding exec_list_add list_add_body
  exec_list_add-Sends =
      search (add-asked, Sends-bind-or_panic, bind_rules, sends_rules, quiet_rules) depth 40

  contains-asked :
      (pid : ℕ) (vd : Bytes)
      → IsPartition c (list_name c) pid
      → IsValue c (c.string_arg (codes "value")) vd
      → (m : Message) → encode p (list_contains (list_name c) vd) ≡ some m
      → Asks c list_contains_command (invoked (on_partition pid) m)
  contains-asked pid vd found is_value m =
      encoded-Asks (list_contains (list_name c) vd) m (list_asks pid vd found is_value) tt

  pub exec_list_contains-Sends : Sends (Asks c list_contains_command) (exec_list_contains c)
  unfolding exec_list_contains list_contains_body encode
  exec_list_contains-Sends =
      search (contains-asked, Sends-bind-or_panic, bind_rules, sends_rules, quiet_rules) depth 40

  set-asked :
      (pid : ℕ) (vd : Bytes)
      → IsPartition c (list_name c) pid
      → IsValue c (c.string_arg (codes "value")) vd
      → (m : Message)
      → encode p (list_set (list_name c) (int32_bits (c.int_arg (codes "index"))) vd) ≡ some m
      → Asks c list_set_command (invoked (on_partition pid) m)
  set-asked pid vd found is_value m =
      encoded-Asks (list_set (list_name c) (int32_bits (c.int_arg (codes "index"))) vd) m
        (list_sets pid vd found is_value) (int32_bits_range (c.int_arg (codes "index")), tt)

  pub exec_list_set-Sends : Sends (Asks c list_set_command) (exec_list_set c)
  unfolding exec_list_set list_set_body encode convert_data_to_row
  exec_list_set-Sends =
      search (set-asked, Sends-bind-or_panic, bind_rules, sends_rules, quiet_rules) depth 40

  -- A removal by index, or by value, for a command that may ask for it.
  removed_row-Sends :
      (k : Command) (value : Text) (resp : Message) → Sends (Asks c k) (removed_row c value resp)
  unfolding removed_row
  removed_row-Sends k [] resp = search (sends_rules, quiet_rules) depth 20
  removed_row-Sends k (x ∷ value) resp = search (sends_rules, quiet_rules) depth 20

  remove_index-Sends :
      (k : Command) (index : ℕ)
      → ((pid : ℕ)
          → IsPartition c (list_name c) pid
          → (m : Message) → encode p (list_remove_with_index (list_name c) index) ≡ some m
          → Asks c k (invoked (on_partition pid) m))
      → Sends (Asks c k) (remove_from_list c index [])
  unfolding remove_from_list remove_body remove_request encode
  remove_index-Sends k index asked =
      search (asked, removed_row-Sends, Sends-bind-or_panic, bind_rules, sends_rules, quiet_rules)
        depth 40

  remove_value-Sends :
      (k : Command) (x : ℕ) (value : Text)
      → ((pid : ℕ) (vd : Bytes)
          → IsPartition c (list_name c) pid
          → IsValue c (x ∷ value) vd
          → (m : Message) → encode p (list_remove (list_name c) vd) ≡ some m
          → Asks c k (invoked (on_partition pid) m))
      → Sends (Asks c k) (remove_from_list c 0 (x ∷ value))
  unfolding remove_from_list remove_body remove_request encode
  remove_value-Sends k x value asked =
      search
        (
          asked, removed_row-Sends, Sends-bind-bind, Sends-bind-or_panic, bind_rules, sends_rules,
          quiet_rules,
        )
        depth 40

  remove_value-cases :
      (value : Text)
      → c.string_arg (codes "value") ≡ value
      → Sends (Asks c list_remove_value_command) (remove_from_list c 0 value)
  remove_value-cases [] e = remove_index-Sends list_remove_value_command 0 (λ pid found m.
      encoded-Asks (list_remove_with_index (list_name c) 0) m (list_removes_first pid found e)
        (omega arith, tt))
  remove_value-cases (x ∷ value) e =
      remove_value-Sends list_remove_value_command x value (λ pid vd found is_value m.
        encoded-Asks (list_remove (list_name c) vd) m
          (list_removes pid vd found (subst (λ v. IsValue c v vd) (sym e) is_value)
            (λ h. cons≢nil (sym e ∙ h)))
          tt)

  pub exec_list_remove_value-Sends :
      Sends (Asks c list_remove_value_command) (exec_list_remove_value c)
  unfolding exec_list_remove_value
  exec_list_remove_value-Sends = remove_value-cases _ refl

  guarded-Sends :
      (below above : Bool) (e e' : c.Error) (m : Action c Unit)
      → (above ≡ false → Sends (Asks c list_remove_index_command) m)
      → Sends
          (Asks c list_remove_index_command)
          (if below then raise e else if above then raise e' else m)
  guarded-Sends true above e e' m h = Sends-raise e
  guarded-Sends false true e e' m h = Sends-raise e'
  guarded-Sends false false e e' m h = h refl

  remove_index-cases :
      (i : ℤ)
      → c.int_arg (codes "index") ≡ i
      → Sends (Asks c list_remove_index_command) (
          if ltb_ℤ i (pos 0)
          then raise (c.error_of (codes "index must be non-negative"))
          else if ltb_ℤ (pos (2 ^ 31 - 1)) i
          then raise (c.error_of (codes "index must fit into a 32bit unsigned integer"))
          else remove_from_list c (int32_bits i) [])
  remove_index-cases (negsuc n) e = Sends-raise _
  remove_index-cases (pos n) e =
      guarded-Sends (ltb_ℤ (pos n) (pos 0)) (ltb (2 ^ 31 - 1) n) _ _
        (remove_from_list c (int32_bits (pos n)) [])
        (λ below.
          let fits : n < 2 ^ 31 = ground (arith, below) in
          let same : n ≡ n % 2 ^ 32 = omega (arith, fits) in
          subst (λ i. Sends (Asks c list_remove_index_command) (remove_from_list c i [])) same
            (remove_index-Sends list_remove_index_command n (λ pid found m.
              encoded-Asks (list_remove_with_index (list_name c) n) m
                (list_removes_at pid n found e fits) (omega (arith, fits), tt))))

  pub exec_list_remove_index-Sends :
      Sends (Asks c list_remove_index_command) (exec_list_remove_index c)
  unfolding exec_list_remove_index
  exec_list_remove_index-Sends = remove_index-cases _ refl
