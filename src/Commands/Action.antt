-- ===== src/Commands/Action.antt =====
-- The body of a command: steps on the world, with a trace of the messages that the client was asked
-- to invoke and of the data structures that it was asked to change through a proxy.
use hazelcast_commandline_cl.Prelude.{ℕ, Text, Option, some, none, List, [], ◌∷◌, ◌++◌}
use hazelcast_commandline_cl.Prelude.Int.{ℤ}
use hazelcast_commandline_cl.Wire.Bytes.{Bytes}
use hazelcast_commandline_cl.Wire.Protocol.{Protocol}
use hazelcast_commandline_cl.Commands.Context.{
  Outcome, ok, failed, panicked, Step, Client, Structure,
}

pub data Target : Type 0 where
  on_partition : ℕ → Target
  on_key : Bytes → Target
  on_random : Target

-- The calls of a proxy: with data, without anything, with a key, and with a key and a lease.
pub data ProxyCall (Value : Type 0) : Type 0 where
  adding : Bytes → ProxyCall Value
  destroying clearing : ProxyCall Value
  locking trying : Value → ProxyCall Value
  locking_for trying_for : Value → ℤ → ProxyCall Value

pub data Event (Message Value : Type 0) : Type 0 where
  invoked : Target → Message → Event Message Value
  called : Structure → Text → ProxyCall Value → Event Message Value

module _ {p : Protocol} (c : Client p) where
  open p use {Message}

  pub record State : Type 0 where
    pub world : c.World
    pub trace : List (Event Message c.Value)

  abbrev pub Action : Type 0 → Type 0
  Action A = State → Outcome c.Error A × State

-- none is a panic
abbrev pub outcome_of : {Error A : Type 0} → Option A → Outcome Error A
outcome_of none = panicked
outcome_of (some a) = ok a

module _ {p : Protocol} {c : Client p} {A : Type 0} where
  open p use {Message}

  unfoldable pub pure : A → Action c A
  pure a s = (ok a, s)

  unfoldable pub raise : c.Error → Action c A
  raise e s = (failed e, s)

  unfoldable pub lift : Outcome c.Error A → Action c A
  lift r s = (r, s)

  unfoldable pub or_panic : Option A → Action c A
  or_panic o s = (outcome_of o, s)

  -- A step of the outside world that changes no data structure.
  unfoldable pub outside : Step c.World c.Error A → Action c A
  outside f s = let (r, w) = f s.world in (r, record { world = w; trace = s.trace })

  -- A step that is traced.
  unfoldable pub traced : Event Message c.Value → Step c.World c.Error A → Action c A
  traced event f s =
      let (r, w) = f s.world in (r, record { world = w; trace = s.trace ++ (event ∷ []) })

module _ {p : Protocol} {c : Client p} {A B : Type 0} where
  abbrev pub continue : Outcome c.Error A → (A → Action c B) → Action c B
  continue (ok a) f s = f a s
  continue (failed e) f s = (failed e, s)
  continue panicked f s = (panicked, s)

  infixl 5 ◌>>=◌ ◌>>◌
  unfoldable pub ◌>>=◌ : Action c A → (A → Action c B) → Action c B
  ◌>>=◌ m f s = let (r, s') = m s in continue r f s'

  abbrev pub ◌>>◌ : Action c A → Action c B → Action c B
  m >> n = m >>= λ _. n

  -- What is done with an error that a call returned.
  abbrev pub continue_or :
      Outcome c.Error A → (A → Action c B) → (c.Error → Action c B) → Action c B
  continue_or (ok a) f g s = f a s
  continue_or (failed e) f g s = g e s
  continue_or panicked f g s = (panicked, s)

  unfoldable pub handle : Action c A → (A → Action c B) → (c.Error → Action c B) → Action c B
  handle m f g s = let (r, s') = m s in continue_or r f g s'

module _ {p : Protocol} {c : Client p} where
  -- A change of the world that returns nothing.
  unfoldable pub act : (c.World → c.World) → Action c Unit
  act f s = (ok tt, record { world = f s.world; trace = s.trace })

  unfoldable pub gets : {A : Type 0} → (c.World → A) → Action c A
  gets f s = (ok (f s.world), s)
