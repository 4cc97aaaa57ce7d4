-- ===== src/Commands/Arguments.antt =====
-- Where the data of a request come from: the arguments of the command and the name of its structure,
-- as the client converts and encodes them.
use mathlib.Core.List.{Memᴰ}
use hazelcast_commandline_cl.Prelude.{ℕ, ◌≡◌, ◌≢◌, refl, sym, ap, subst, List, [], ◌∷◌, Text, codes}
use hazelcast_commandline_cl.Wire.Bytes.{Bytes}
use hazelcast_commandline_cl.Wire.Protocol.{Protocol}
use hazelcast_commandline_cl.Commands.Context.{Outcome, ok, failed, panicked, Client, Step}
use hazelcast_commandline_cl.Commands.Action.{
  State, Action, Event, pure, lift, outside, continue, ◌>>=◌,
}
use hazelcast_commandline_cl.Commands.Common.{
  or_string, partition_key, make_value_from_string, make_key_data, make_value_data,
  make_key_value_data, string_to_partition_id,
}
use hazelcast_commandline_cl.Commands.Sends.{Sends, Grows-trans, continue-Grows}

-- A blank flag names the type of strings.
abbrev pub type_named : Text → Text
type_named [] = codes "string"
type_named (x ∷ type) = x ∷ type

module _ {p : Protocol} (c : Client p) where
  -- The client answered a step so, in some state of the world.
  pub record Answers {A : Type 0} (step : Step c.World c.Error A) (a : A) : Type 0 where
    pub before : c.World
    pub after : c.World
    pub answered : step before ≡ (ok a, after)

  -- The value of a text, of the type that a flag names.
  abbrev pub IsRead : Text → Text → c.Value → Type 0
  IsRead flag text value = c.value_from_string text (type_named (c.string_prop flag)) ≡ ok value

  -- The data of a text, as a value of the type that a flag names.
  pub record IsData (flag text : Text) (bytes : Bytes) : Type 0 where
    pub value : c.Value
    pub read : IsRead flag text value
    pub encoded : Answers (c.encode_value value) bytes

  abbrev pub IsKey : Text → Bytes → Type 0
  IsKey = IsData (codes "key-type")

  abbrev pub IsValue : Text → Bytes → Type 0
  IsValue = IsData (codes "value-type")

  -- The data of one of several values.
  pub record IsOneOf (texts : List Text) (bytes : Bytes) : Type 0 where
    pub text : Text
    pub among : Memᴰ text texts
    pub is_value : IsValue text bytes

  -- The data of several keys, in their order.
  abbrev pub AreKeys : List Text → List Bytes → Type 0
  AreKeys [] [] = Unit
  AreKeys (text ∷ texts) (key ∷ keys) = IsKey text key × AreKeys texts keys
  AreKeys _ _ = ⊥

  -- The partition of a name: that of the data of the text behind its first @, or of the whole name.
  pub record IsPartition (name : Text) (pid : ℕ) : Type 0 where
    pub key : Bytes
    pub encoded : Answers (c.encode_value (c.text_value (partition_key c name))) key
    pub found : Answers (c.partition_id key) pid

  pub AreKeys-blank : (texts : List Text) → AreKeys texts [] → texts ≡ []
  AreKeys-blank [] h = refl
  AreKeys-blank (text ∷ texts) h = absurd h

  pub AreKeys-filled :
      (texts : List Text) (key : Bytes) (keys : List Bytes)
      → AreKeys texts (key ∷ keys)
      → texts ≢ []
  AreKeys-filled [] key keys h = absurd h
  AreKeys-filled (text ∷ texts) key keys h = λ e. cc

  -- What an action returns when it succeeds.
  pub record Returns {A : Type 0} (Q : A → Type 0) (m : Action c A) : Type 0 where
    pub at : (s : State c) (a : A) → (m s).0 ≡ ok a → Q a

  abbrev ok_or : {A : Type 0} → A → Outcome c.Error A → A
  ok_or a (ok b) = b
  ok_or a (failed e) = a
  ok_or a panicked = a

  ok-injective : {A : Type 0} (a b : A) → ◌≡◌ {A = Outcome c.Error A} (ok a) (ok b) → a ≡ b
  ok-injective a b h = ap (ok_or a) h

  pub Returns-pure : {A : Type 0} (Q : A → Type 0) (a : A) → Q a → Returns Q (pure a)
  unfolding pure
  Returns-pure Q a h = record { at = λ s b e. subst Q (ok-injective a b e) h }

  Returns-lift : {A : Type 0} (r : Outcome c.Error A) → Returns (λ a. r ≡ ok a) (lift r)
  unfolding lift
  Returns-lift r = record { at = λ s a e. e }

  Returns-outside : {A : Type 0} (f : Step c.World c.Error A) → Returns (Answers f) (outside f)
  unfolding outside
  Returns-outside f = record {
    at = λ s a e. record {
      before = s.world;
      after = (f s.world).1;
      answered = ap (λ r. (r, (f s.world).1)) e;
    };
  }

  module _ {A B : Type 0} (Q : A → Type 0) (R : B → Type 0) where
    continue-Returns :
        (r : Outcome c.Error A) (f : A → Action c B) (s : State c) (b : B)
        → ((a : A) → r ≡ ok a → Returns R (f a))
        → (continue r f s).0 ≡ ok b
        → R b
    continue-Returns (ok a) f s b h e = (h a refl).at s b e
    continue-Returns (failed e') f s b h e = cc
    continue-Returns panicked f s b h e = cc

    pub Returns-bind :
        (m : Action c A) (f : A → Action c B)
        → Returns Q m
        → ((a : A) → Q a → Returns R (f a))
        → Returns R (m >>= f)
    unfolding ◌>>=◌
    Returns-bind m f h k = record {
      at = λ s b e. let (r, s') = m s in continue-Returns r f s' b (λ a e'. k a (h.at s a e')) e;
    }

  module _ {A B : Type 0} {P : Event p.Message c.Value → Type 0} where
    -- The rest may use what the action returned.
    pub Sends-bind-Returns :
        (Q : A → Type 0) (m : Action c A) (f : A → Action c B)
        → Returns Q m
        → Sends P m
        → ((a : A) → Q a → Sends P (f a))
        → Sends P (m >>= f)
    unfolding ◌>>=◌
    Sends-bind-Returns Q m f q h k = record {
      at = λ s.
          let (r, s') = m s in
          Grows-trans s s' (continue r f s').1 (h.at s)
            (continue-Grows r f s' (λ a e. k a (q.at s a e)));
    }

  or_string-type_named : (type : Text) → or_string c type ≡ type_named type
  or_string-type_named [] = refl
  or_string-type_named (x ∷ type) = refl

  pub make_value_from_string-Returns :
      (flag text : Text)
      → Returns (IsRead flag text) (make_value_from_string c text (c.string_prop flag))
  unfolding make_value_from_string
  make_value_from_string-Returns flag text =
      subst (λ type. Returns (IsRead flag text) (lift {c = c} (c.value_from_string text type)))
        (sym (or_string-type_named (c.string_prop flag)))
        (Returns-lift (c.value_from_string text (type_named (c.string_prop flag))))

  encode_value-Returns :
      (flag text : Text)
      → Returns (IsData flag text) (
          make_value_from_string c text (c.string_prop flag) >>= λ value.
          outside (c.encode_value value))
  encode_value-Returns flag text =
      Returns-bind _ (IsData flag text) _ _ (make_value_from_string-Returns flag text)
        (λ value read. Returns-bind-last value read)
    where
      Returns-bind-last :
          (value : c.Value)
          → IsRead flag text value
          → Returns (IsData flag text) (outside (c.encode_value value))
      Returns-bind-last value read = record {
        at = λ s a e. record {
          value = value;
          read = read;
          encoded = (Returns-outside (c.encode_value value)).at s a e;
        };
      }

  pub make_key_data-Returns : (text : Text) → Returns (IsKey text) (make_key_data c text)
  unfolding make_key_data
  make_key_data-Returns text = encode_value-Returns (codes "key-type") text

  pub make_value_data-Returns : (text : Text) → Returns (IsValue text) (make_value_data c text)
  unfolding make_value_data
  make_value_data-Returns text = encode_value-Returns (codes "value-type") text

  pub make_key_value_data-Returns :
      (key value : Text)
      → Returns
          (λ (kv : Bytes × Bytes). IsKey key kv.0 × IsValue value kv.1)
          (make_key_value_data c key value)
  unfolding make_key_value_data
  make_key_value_data-Returns key value =
      Returns-bind (IsKey key) _ _ _ (make_key_data-Returns key) (λ kd is_key.
        Returns-bind (IsValue value) _ _ _ (make_value_data-Returns value)
          (λ vd is_value. Returns-pure _ (kd, vd) (is_key, is_value)))

  pub string_to_partition_id-Returns :
      (name : Text) → Returns (IsPartition name) (string_to_partition_id c name)
  unfolding string_to_partition_id
  string_to_partition_id-Returns name =
      Returns-bind _ _ _ _ (Returns-outside (c.encode_value (c.text_value (partition_key c name))))
        (λ key encoded. record {
          at = λ s pid e. record {
            key = key;
            encoded = encoded;
            found = (Returns-outside (c.partition_id key)).at s pid e;
          };
        })
