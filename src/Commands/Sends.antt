-- ===== src/Commands/Sends.antt =====
-- What an action asks the client for, whatever the client answers: one rule for each way to build an
-- action.
use mathlib.Core.List.{Memᴰ}
use hazelcast_commandline_cl.Prelude.{
  ◌≡◌, refl, sym, subst, ap, ◌∙◌, Bool, true, false, Option, some, none, List, [], ◌∷◌, ◌++◌, All,
  append-nil, append_assoc, if◌then◌else◌,
}
use hazelcast_commandline_cl.Wire.Protocol.{Protocol}
use hazelcast_commandline_cl.Commands.Context.{Outcome, ok, failed, panicked, Client, Step, Row}
use hazelcast_commandline_cl.Commands.Action.{
  State, Action, Event, pure, raise, lift, or_panic, outside, traced, continue, continue_or, ◌>>=◌,
  handle, act, gets,
}
use hazelcast_commandline_cl.Commands.Common.{execute_blocking, each_row}

All-append : {A : Type 0} (P : A → Type 0) (xs ys : List A) → All P xs → All P ys → All P (xs ++ ys)
All-append P [] ys h k = k
All-append P (x ∷ xs) ys h k = (h.0, All-append P xs ys h.1 k)

module _ {p : Protocol} {c : Client p} where
  open p use {Message}

  -- The trace grows by events that `P` allows.
  pub record Grows (P : Event Message c.Value → Type 0) (s t : State c) : Type 0 where
    pub added : List (Event Message c.Value)
    pub trace_is : t.trace ≡ s.trace ++ added
    pub allowed : All P added

  pub record Sends {A : Type 0} (P : Event Message c.Value → Type 0) (m : Action c A) : Type 0 where
    pub at : (s : State c) → Grows P s (m s).1

  Grows-none :
      {P : Event Message c.Value → Type 0} (s t : State c) → t.trace ≡ s.trace → Grows P s t
  Grows-none s t h = record { added = []; trace_is = h ∙ sym (append-nil s.trace); allowed = tt }

  pub Grows-trans :
      {P : Event Message c.Value → Type 0} (s t u : State c)
      → Grows P s t
      → Grows P t u
      → Grows P s u
  Grows-trans {P = P} s t u g h = record {
    added = g.added ++ h.added;
    trace_is =
        h.trace_is
        ∙ ap (λ (l : List (Event Message c.Value)). l ++ h.added) g.trace_is
        ∙ append_assoc s.trace g.added h.added;
    allowed = All-append P g.added h.added g.allowed h.allowed;
  }

module _ {p : Protocol} {c : Client p} {P : Event p.Message c.Value → Type 0} {A : Type 0} where
  pub Sends-pure : (a : A) → Sends {c = c} P (pure a)
  unfolding pure
  Sends-pure a = record { at = λ s. Grows-none s s refl }

  pub Sends-raise : (e : c.Error) → Sends {c = c} {A = A} P (raise e)
  unfolding raise
  Sends-raise e = record { at = λ s. Grows-none s s refl }

  pub Sends-lift : (r : Outcome c.Error A) → Sends {c = c} P (lift r)
  unfolding lift
  Sends-lift r = record { at = λ s. Grows-none s s refl }

  pub Sends-or_panic : (o : Option A) → Sends {c = c} P (or_panic o)
  unfolding or_panic
  Sends-or_panic o = record { at = λ s. Grows-none s s refl }

  pub Sends-gets : (f : c.World → A) → Sends {c = c} P (gets f)
  unfolding gets
  Sends-gets f = record { at = λ s. Grows-none s s refl }

  pub Sends-outside : (f : Step c.World c.Error A) → Sends {c = c} P (outside f)
  unfolding outside
  Sends-outside f = record {
    at = λ s. let (r, w) = f s.world in Grows-none s (record { world = w; trace = s.trace }) refl;
  }

  pub Sends-traced :
      (event : Event p.Message c.Value) (f : Step c.World c.Error A)
      → P event
      → Sends {c = c} P (traced event f)
  unfolding traced
  Sends-traced event f h = record {
    at = λ s. record { added = event ∷ []; trace_is = refl; allowed = (h, tt) };
  }

  pub Sends-execute_blocking : (m : Action c A) → Sends P m → Sends P (execute_blocking c m)
  unfolding execute_blocking
  Sends-execute_blocking m h = record { at = λ s. h.at s }

  pub Sends-if :
      (b : Bool) (m n : Action c A)
      → (b ≡ true → Sends P m)
      → (b ≡ false → Sends P n)
      → Sends P (if b then m else n)
  Sends-if true m n h k = h refl
  Sends-if false m n h k = k refl

module _ {p : Protocol} {c : Client p} {P : Event p.Message c.Value → Type 0} where
  pub Sends-act : (f : c.World → c.World) → Sends {c = c} P (act f)
  unfolding act
  Sends-act f = record {
    at = λ s. Grows-none s (record { world = f s.world; trace = s.trace }) refl;
  }

module _ {p : Protocol} {c : Client p} {P : Event p.Message c.Value → Type 0} {A B : Type 0} where
  pub continue-Grows :
      (r : Outcome c.Error A) (f : A → Action c B) (s : State c)
      → ((a : A) → r ≡ ok a → Sends P (f a))
      → Grows P s (continue r f s).1
  continue-Grows (ok a) f s h = (h a refl).at s
  continue-Grows (failed e) f s h = Grows-none s s refl
  continue-Grows panicked f s h = Grows-none s s refl

  pub Sends-bind :
      (m : Action c A) (f : A → Action c B)
      → Sends P m
      → ((a : A) → Sends P (f a))
      → Sends P (m >>= f)
  unfolding ◌>>=◌
  Sends-bind m f h k = record {
    at = λ s.
        let (r, s') = m s in
        Grows-trans s s' (continue r f s').1 (h.at s) (continue-Grows r f s' (λ a _. k a));
  }

  -- The rest may use that the request was encoded.
  pub Sends-bind-or_panic :
      (o : Option A) (f : A → Action c B)
      → ((a : A) → o ≡ some a → Sends P (f a))
      → Sends P (or_panic o >>= f)
  unfolding ◌>>=◌ or_panic
  Sends-bind-or_panic none f h = record { at = λ s. Grows-none s s refl }
  Sends-bind-or_panic (some a) f h = record { at = λ s. (h a refl).at s }

  continue_or-Grows :
      (r : Outcome c.Error A) (f : A → Action c B) (g : c.Error → Action c B) (s : State c)
      → ((a : A) → Sends P (f a))
      → ((e : c.Error) → Sends P (g e))
      → Grows P s (continue_or r f g s).1
  continue_or-Grows (ok a) f g s h k = (h a).at s
  continue_or-Grows (failed e) f g s h k = (k e).at s
  continue_or-Grows panicked f g s h k = Grows-none s s refl

  pub Sends-handle :
      (m : Action c A) (f : A → Action c B) (g : c.Error → Action c B)
      → Sends P m
      → ((a : A) → Sends P (f a))
      → ((e : c.Error) → Sends P (g e))
      → Sends P (handle m f g)
  unfolding handle
  Sends-handle m f g h k l = record {
    at = λ s.
        let (r, s') = m s in
        Grows-trans s s' (continue_or r f g s').1 (h.at s) (continue_or-Grows r f g s' k l);
  }

module _ {p : Protocol} {c : Client p} {P : Event p.Message c.Value → Type 0} {A : Type 0} where
  pub Sends-each_row :
      (f : A → Action c (Row c.Value)) (items : List A)
      → ((a : A) → Sends P (f a))
      → Sends P (each_row c f items)
  unfolding each_row
  Sends-each_row f [] h = Sends-pure []
  Sends-each_row f (a ∷ items) h = Sends-bind (f a) _ (h a) (λ row.
      Sends-bind (each_row c f items) _ (Sends-each_row f items h)
        (λ rows. Sends-pure (row ∷ rows)))

  -- A row for each item, where the row may use that the item is one of them.
  pub Sends-each_row_among :
      (f : A → Action c (Row c.Value)) (items : List A)
      → ((a : A) → Memᴰ a items → Sends P (f a))
      → Sends P (each_row c f items)
  unfolding each_row
  Sends-each_row_among f [] h = Sends-pure []
  Sends-each_row_among f (a ∷ items) h = Sends-bind (f a) _ (h a (Memᴰ.head refl)) (λ row.
      Sends-bind (each_row c f items) _ (Sends-each_row_among f items (λ b m. h b (Memᴰ.tail m)))
        (λ rows. Sends-pure (row ∷ rows)))

module _ {p : Protocol} {c : Client p} {A B D : Type 0} where
  bind-continue :
      (r : Outcome c.Error A) (f : A → Action c B) (g : B → Action c D) (s : State c)
      → (continue r f >>= g) s ≡ continue r (λ a. f a >>= g) s
  unfolding ◌>>=◌
  bind-continue (ok a) f g s = refl
  bind-continue (failed e) f g s = refl
  bind-continue panicked f g s = refl

module _ {p : Protocol} {c : Client p} {P : Event p.Message c.Value → Type 0} {A B D : Type 0} where
  pub Sends-bind-bind :
      (m : Action c A) (f : A → Action c B) (g : B → Action c D)
      → Sends P (m >>= λ a. f a >>= g)
      → Sends P (m >>= f >>= g)
  unfolding ◌>>=◌
  Sends-bind-bind m f g h = record {
    at = λ s.
        let (r, s') = m s in
        subst (λ (x : Outcome c.Error D × State c). Grows P s x.1) (sym (bind-continue r f g s'))
          (h.at s);
  }

pub ruleset sends_rules = (
  Sends-pure, Sends-raise, Sends-lift, Sends-or_panic, Sends-gets, Sends-outside, Sends-act,
  Sends-execute_blocking, Sends-each_row, Sends-handle, Sends-bind,
)
