-- ===== src/Commands/Counts.antt =====
-- How many requests a command makes when it succeeds.
use hazelcast_commandline_cl.Prelude.{
  ℕ, ◌+◌, ◌≡◌, refl, ap, ◌∙◌, subst, Option, some, none, List, [], ◌∷◌, ◌++◌, All, Text, codes,
  arith, length, length-append, replicate, length-replicate, append-nil,
}
use hazelcast_commandline_cl.Prelude.Int.{pos}
use hazelcast_commandline_cl.Wire.Protocol.{Protocol}
use hazelcast_commandline_cl.Commands.Context.{Client, Row, Outcome, ok, failed, panicked}
use hazelcast_commandline_cl.Commands.Action.{
  State, Action, Target, on_partition, on_key, on_random, Event, invoked, traced, continue, ◌>>=◌,
}
use hazelcast_commandline_cl.Commands.Common.{invoke, each_row, execute_blocking, on_done}
use hazelcast_commandline_cl.Commands.Batches.{
  remove_item, set_remove_body, exec_set_remove, poll_once, poll_body, poll_count, exec_queue_poll,
}
use hazelcast_commandline_cl.Commands.Sends.{Sends, Sends-pure, Grows, sends_rules}
use hazelcast_commandline_cl.Commands.Requests.Quiet.{quiet_rules, Sends-add_output_rows}

abbrev Never : {Message Value : Type 0} → Event Message Value → Type 0
Never event = ⊥

none-added :
    {Message Value : Type 0} (added : List (Event Message Value)) → All Never added → added ≡ []
none-added [] h = refl
none-added (event ∷ added) h = absurd h.0

module _ {p : Protocol} {c : Client p} where
  open p use {Message}

  -- When the action succeeds, it has added `n` events.
  abbrev pub AddsOf : {A : Type 0} → ℕ → State c → Outcome c.Error A × State c → Type 0
  AddsOf n s (ok a, s') = length s'.trace ≡ length s.trace + n
  AddsOf n s (failed e, s') = Unit {0}
  AddsOf n s (panicked, s') = Unit {0}

  pub record Adds {A : Type 0} (n : ℕ) (m : Action c A) : Type 0 where
    pub at : (s : State c) → AddsOf n s (m s)

  Grows-same : (s t : State c) → Grows Never s t → length t.trace ≡ length s.trace
  Grows-same s t g = ap length (
      g.trace_is
      ∙ ap (λ (l : List (Event Message c.Value)). s.trace ++ l) (none-added g.added g.allowed)
      ∙ append-nil s.trace)

  module _ {A B : Type 0} where
    continue-AddsOf :
        (n k : ℕ) (s : State c) (r : Outcome c.Error A) (f : A → Action c B) (s' : State c)
        → AddsOf n s (r, s')
        → ((a : A) → Adds k (f a))
        → AddsOf (n + k) s (continue r f s')
    continue-AddsOf n k s (ok a) f s' h hs = longer (f a s') ((hs a).at s')
      where
        longer : (o : Outcome c.Error B × State c) → AddsOf k s' o → AddsOf (n + k) s o
        longer (ok b, t) g = omega (arith, g, h)
        longer (failed e, t) g = tt
        longer (panicked, t) g = tt
    continue-AddsOf n k s (failed e) f s' h hs = tt
    continue-AddsOf n k s panicked f s' h hs = tt

    Adds-bind :
        (n k : ℕ) (m : Action c A) (f : A → Action c B)
        → Adds n m
        → ((a : A) → Adds k (f a))
        → Adds (n + k) (m >>= f)
    unfolding ◌>>=◌
    Adds-bind n k m f h hs = record {
      at = λ s. let (r, s') = m s in continue-AddsOf n k s r f s' (h.at s) hs;
    }

  module _ {A : Type 0} where
    Adds-none : (m : Action c A) → Sends Never m → Adds 0 m
    Adds-none m h = record { at = λ s. same s (m s) (Grows-same s (m s).1 (h.at s)) }
      where
        same :
            (s : State c) (o : Outcome c.Error A × State c)
            → length o.1.trace ≡ length s.trace
            → AddsOf 0 s o
        same s (ok a, t) e = omega (arith, e)
        same s (failed e', t) e = tt
        same s (panicked, t) e = tt

    Adds-execute_blocking : (n : ℕ) (m : Action c A) → Adds n m → Adds n (execute_blocking c m)
    unfolding execute_blocking
    Adds-execute_blocking n m h = record {
      at = λ s. let (r, s') = m s in done s r s' (c.context_err s'.world) (h.at s);
    }
      where
        done :
            (s : State c) (r : Outcome c.Error A) (s' : State c) (e : Option c.Error)
            → AddsOf n s (r, s')
            → AddsOf n s (on_done c r e, s')
        done s (ok a) s' none h' = h'
        done s (ok a) s' (some e) h' = tt
        done s (failed e') s' none h' = tt
        done s (failed e') s' (some e) h' = tt
        done s panicked s' e h' = tt

  Adds-after :
      {A B : Type 0} (n : ℕ) (m : Action c A) (f : A → Action c B)
      → Sends Never m
      → ((a : A) → Adds n (f a))
      → Adds n (m >>= f)
  Adds-after n m f h hs =
      subst (λ k. Adds k (m >>= f)) (omega arith) (Adds-bind 0 n m f (Adds-none m h) hs)

  traced-AddsOf :
      {A : Type 0} (event : Event Message c.Value) (s : State c) (r : Outcome c.Error A)
      (w : c.World)
      → AddsOf 1 s (r, record { world = w; trace = s.trace ++ (event ∷ []) })
  traced-AddsOf event s (ok a) w = length-append s.trace (event ∷ [])
  traced-AddsOf event s (failed e) w = tt
  traced-AddsOf event s panicked w = tt

  Adds-invoke : (t : Target) (m : Message) → Adds 1 (invoke c t m)
  unfolding invoke traced
  Adds-invoke (on_partition i) m = record {
    at = λ s.
        let (r, w) = c.invoke_on_partition i m s.world in
        traced-AddsOf (invoked (on_partition i) m) s r w;
  }
  Adds-invoke (on_key key) m = record {
    at = λ s.
        let (r, w) = c.invoke_on_key key m s.world in traced-AddsOf (invoked (on_key key) m) s r w;
  }
  Adds-invoke on_random m = record {
    at =
        λ s. let (r, w) = c.invoke_on_random m s.world in traced-AddsOf (invoked on_random m) s r w;
  }

  Adds-each_row :
      {A : Type 0} (f : A → Action c (Row c.Value)) (items : List A)
      → ((a : A) → Adds 1 (f a))
      → Adds (length items) (each_row c f items)
  unfolding each_row
  Adds-each_row f [] h = Adds-none _ (Sends-pure [])
  Adds-each_row f (a ∷ items) h =
      subst (λ k. Adds k (each_row c f (a ∷ items))) (omega arith)
        (Adds-bind 1 (length items + 0) (f a) _ (h a) (λ row.
          Adds-bind (length items) 0 (each_row c f items) _ (Adds-each_row f items h)
            (λ rows. Adds-none _ (Sends-pure (row ∷ rows)))))

  poll_once-Adds : (pid : ℕ) (req : Message) (round : ℕ) → Adds 1 (poll_once c pid req round)
  unfolding poll_once
  poll_once-Adds pid req round =
      Adds-bind 1 0 _ _ (Adds-invoke (on_partition pid) req)
        (λ rv. Adds-none _ (search (sends_rules, quiet_rules) depth 20))

  poll_body-Adds : (count : ℕ) → Adds count (poll_body c count)
  unfolding poll_body
  poll_body-Adds count =
      subst (λ k. Adds k (poll_body c count)) (length-replicate {A = ℕ} count 0)
        (Adds-after _ _ _ (search (sends_rules, quiet_rules)) λ _.
          Adds-after _ _ _ (search (sends_rules, quiet_rules)) λ _.
            Adds-after _ _ _ (search (sends_rules, quiet_rules)) λ _.
              Adds-after _ _ _ (search (sends_rules, quiet_rules)) λ req.
                Adds-after _ _ _ (search (sends_rules, quiet_rules)) λ pid.
                  Adds-each_row (poll_once c pid req) (replicate count 0) (poll_once-Adds pid req))

  poll_count-Adds : (count : ℕ) → Adds count (poll_count c (pos count))
  poll_count-Adds count =
      subst (λ k. Adds k (poll_count c (pos count))) (omega arith)
        (Adds-bind count 0 _ _
          (Adds-execute_blocking count (poll_body c count) (poll_body-Adds count))
          (λ rows. Adds-none _ (Sends-add_output_rows rows)))

  -- A poll of a queue that succeeds has made as many requests as its count says.
  pub exec_queue_poll-count :
      (count : ℕ) (s : State c)
      → c.int_prop (codes "count") ≡ pos count
      → AddsOf count s (exec_queue_poll c s)
  unfolding exec_queue_poll
  exec_queue_poll-count count s e = rw e ((poll_count-Adds count).at s)

  remove_item-Adds : (arg : Text) → Adds 1 (remove_item c arg)
  unfolding remove_item
  remove_item-Adds arg = Adds-after 1 _ _ (search (sends_rules, quiet_rules)) λ vd.
      Adds-after 1 _ _ (search (sends_rules, quiet_rules)) λ req.
        Adds-after 1 _ _ (search (sends_rules, quiet_rules)) λ pid.
          Adds-bind 1 0 _ _ (Adds-invoke (on_partition pid) req)
            λ sv. Adds-none _ (search (sends_rules, quiet_rules) depth 20)

  set_remove_body-Adds : Adds (length (c.strings_arg (codes "value"))) (set_remove_body c)
  unfolding set_remove_body
  set_remove_body-Adds =
      Adds-after (length (c.strings_arg (codes "value"))) _ _ (search (sends_rules, quiet_rules))
        λ _.
          Adds-after (length (c.strings_arg (codes "value"))) _ _
            (search (sends_rules, quiet_rules))
            λ _.
              Adds-after (length (c.strings_arg (codes "value"))) _ _
                (search (sends_rules, quiet_rules))
                λ _. Adds-each_row (remove_item c) (c.strings_arg (codes "value")) remove_item-Adds

  exec_set_remove-Adds : Adds (length (c.strings_arg (codes "value"))) (exec_set_remove c)
  unfolding exec_set_remove
  exec_set_remove-Adds =
      subst (λ k. Adds k (exec_set_remove c)) (omega arith)
        (Adds-bind (length (c.strings_arg (codes "value"))) 0 _ _
          (Adds-execute_blocking (length (c.strings_arg (codes "value"))) (set_remove_body c)
            set_remove_body-Adds)
          (λ rows. Adds-none _ (Sends-add_output_rows rows)))

  -- A removal from a set that succeeds has made one request for each of its arguments.
  pub exec_set_remove-count :
      (s : State c) → AddsOf (length (c.strings_arg (codes "value"))) s (exec_set_remove c s)
  exec_set_remove-count s = exec_set_remove-Adds.at s
