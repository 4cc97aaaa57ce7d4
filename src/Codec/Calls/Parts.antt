-- ===== src/Codec/Calls/Parts.antt =====
-- The parts of a message behind its initial frame, and what it means for frames to hold them.
use hazelcast_commandline_cl.Prelude.{
  ◌≡◌, refl, sym, ap, ◌∙◌, some, List, [], ◌∷◌, ◌++◌, append-nil, append_assoc, inl, inr,
  Bool-cases,
}
use hazelcast_commandline_cl.Wire.Bytes.{Bytes}
use hazelcast_commandline_cl.Wire.Protocol.{Protocol}
use hazelcast_commandline_cl.Codec.Builtin.{
  decode_string, decode_data, decode_nullable_for_string, encode_string, encode_data,
  encode_byte_array, encode_nullable_for_string, encode_each, encode_list_multi_frame_for_string,
  encode_list_multi_frame_for_data, is_blank,
}
use hazelcast_commandline_cl.Codec.Builtin.Items.{
  decode_list_multi_frame_for_string, decode_list_multi_frame_for_data,
}
use hazelcast_commandline_cl.Codec.Carries.{
  seen_string, encode_string-Carries, encode_data-Carries, encode_nullable_for_string-Carries,
}
use hazelcast_commandline_cl.Codec.Carries.Lists.{
  encode_list_multi_frame_for_string-Carries, encode_list_multi_frame_for_data-Carries,
}

pub data Part : Type 0 where
  string_part data_part nullable_part bytes_part : Bytes → Part
  strings_part datas_part : List Bytes → Part

module _ (p : Protocol) where
  open p use {
    Frame, Message, frames, add_frame, retryable, message_type, frames-add_frame,
    retryable-add_frame, type-add_frame, null_frame, new_frame,
  }

  abbrev pub write_part : Message → Part → Message
  write_part m (string_part v) = encode_string p m v
  write_part m (data_part v) = encode_data p m v
  write_part m (nullable_part v) = encode_nullable_for_string p m v
  write_part m (bytes_part v) = encode_byte_array p m v
  write_part m (strings_part vs) = encode_list_multi_frame_for_string p m vs
  write_part m (datas_part vs) = encode_list_multi_frame_for_data p m vs

  abbrev pub write_parts : Message → List Part → Message
  write_parts m [] = m
  write_parts m (part ∷ parts) = write_parts (write_part m part) parts

  -- The decoder of the part's type takes it from `it` and leaves `rest`.
  abbrev pub ReadsPart : Part → List Frame → List Frame → Type 0
  ReadsPart (string_part v) it rest = decode_string p it ≡ some (v, rest)
  ReadsPart (data_part v) it rest = decode_data p it ≡ some (v, rest)
  ReadsPart (nullable_part v) it rest =
      decode_nullable_for_string p it ≡ some (seen_string p v, rest)
  ReadsPart (bytes_part v) it rest = decode_data p it ≡ some (v, rest)
  ReadsPart (strings_part vs) it rest = decode_list_multi_frame_for_string p it ≡ some (vs, rest)
  ReadsPart (datas_part vs) it rest = decode_list_multi_frame_for_data p it ≡ some (vs, rest)

  -- The frames hold these parts and nothing else.
  pub data HoldsParts : List Part → List Frame → Type 0 where
    done : HoldsParts [] []
    part :
        {x : Part} {xs : List Part} {it rest : List Frame}
        → ReadsPart x it rest
        → HoldsParts xs rest
        → HoldsParts (x ∷ xs) it

  -- `m'` is `m` with frames added behind its first frame.
  pub record Extends (m m' : Message) : Type 0 where
    pub retry_same : retryable m' ≡ retryable m
    pub type_same :
        (f : Frame) (fs : List Frame) → frames m ≡ f ∷ fs → message_type m' ≡ message_type m
    pub added : List Frame
    pub appended : frames m' ≡ frames m ++ added

  Extends-refl : (m : Message) → Extends m m
  Extends-refl m = record {
    retry_same = refl;
    type_same = λ f fs h. refl;
    added = [];
    appended = sym (append-nil (frames m));
  }

  Extends-trans : (a b c : Message) → Extends a b → Extends b c → Extends a c
  Extends-trans a b c x y = record {
    retry_same = y.retry_same ∙ x.retry_same;
    type_same = λ f fs h.
        y.type_same f (fs ++ x.added) (x.appended ∙ ap (λ (l : List Frame). l ++ x.added) h)
        ∙ x.type_same f fs h;
    added = x.added ++ y.added;
    appended =
        y.appended
        ∙ ap (λ (l : List Frame). l ++ y.added) x.appended
        ∙ append_assoc (frames a) x.added y.added;
  }

  Extends-add_frame : (m : Message) (f : Frame) → Extends m (add_frame f m)
  Extends-add_frame m f = record {
    retry_same = retryable-add_frame f m;
    type_same = λ g gs h. type-add_frame f m g gs h;
    added = f ∷ [];
    appended = frames-add_frame f m;
  }

  encode_each-Extends : (vs : List Bytes) (m : Message) → Extends m (encode_each p m vs)
  unfolding encode_each
  encode_each-Extends [] m = Extends-refl m
  encode_each-Extends (v ∷ vs) m =
      Extends-trans m (add_frame (new_frame v) m) _ (Extends-add_frame m (new_frame v))
        (encode_each-Extends vs (add_frame (new_frame v) m))

  around-Extends :
      (m : Message) (vs : List Bytes) (b e : Frame)
      → Extends m (add_frame e (encode_each p (add_frame b m) vs))
  around-Extends m vs b e =
      Extends-trans m (encode_each p (add_frame b m) vs) _
        (Extends-trans m (add_frame b m) _ (Extends-add_frame m b)
          (encode_each-Extends vs (add_frame b m)))
        (Extends-add_frame (encode_each p (add_frame b m) vs) e)

  write_part-Extends : (m : Message) (x : Part) → Extends m (write_part m x)
  unfolding encode_string encode_data encode_byte_array encode_nullable_for_string
      encode_list_multi_frame_for_string encode_list_multi_frame_for_data
  write_part-Extends m (string_part v) = Extends-add_frame m (new_frame v)
  write_part-Extends m (data_part v) = Extends-add_frame m (new_frame v)
  write_part-Extends m (bytes_part v) = Extends-add_frame m (new_frame v)
  write_part-Extends m (nullable_part v) = elim (Bool-cases (is_blank v)) [
    | inl blank ↦ rw blank (Extends-add_frame m null_frame)
    | inr full ↦ rw full (Extends-add_frame m (new_frame v))
  ]
  write_part-Extends m (strings_part vs) = around-Extends m vs _ _
  write_part-Extends m (datas_part vs) = around-Extends m vs _ _

  pub write_parts-Extends : (xs : List Part) (m : Message) → Extends m (write_parts m xs)
  write_parts-Extends [] m = Extends-refl m
  write_parts-Extends (x ∷ xs) m =
      Extends-trans m (write_part m x) _ (write_part-Extends m x)
        (write_parts-Extends xs (write_part m x))

  part-Carries :
      (m : Message) (x : Part)
      → (added : List Frame) × (frames (write_part m x) ≡ frames m ++ added)
        × ((rest : List Frame) → ReadsPart x (added ++ rest) rest)
  part-Carries m (string_part v) =
      let c = encode_string-Carries p m v in (c.added, c.appended, c.decodes)
  part-Carries m (data_part v) =
      let c = encode_data-Carries p m v in (c.added, c.appended, c.decodes)
  part-Carries m (bytes_part v) =
      let c = encode_data-Carries p m v in
      (c.added, unfold encode_data encode_byte_array in c.appended, c.decodes)
  part-Carries m (nullable_part v) =
      let c = encode_nullable_for_string-Carries p m v in (c.added, c.appended, c.decodes)
  part-Carries m (strings_part vs) =
      let c = encode_list_multi_frame_for_string-Carries p m vs in (c.added, c.appended, c.decodes)
  part-Carries m (datas_part vs) =
      let c = encode_list_multi_frame_for_data-Carries p m vs in (c.added, c.appended, c.decodes)

  pub write_parts-HoldsParts :
      (xs : List Part) (m : Message)
      → (added : List Frame) × (frames (write_parts m xs) ≡ frames m ++ added) × HoldsParts xs added
  write_parts-HoldsParts [] m = ([], sym (append-nil (frames m)), done)
  write_parts-HoldsParts (x ∷ xs) m =
      let (a, ea, ra) = part-Carries m x in
      let (b, eb, hb) = write_parts-HoldsParts xs (write_part m x) in
      (
        a ++ b,
        eb ∙ ap (λ (l : List Frame). l ++ b) ea ∙ append_assoc (frames m) a b,
        part (ra b) hb,
      )
