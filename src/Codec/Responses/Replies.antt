-- ===== src/Codec/Responses/Replies.antt =====
-- The responses are read as they were written: by the encoder of the same data, or field by field
-- behind the header of the response.
use mathlib.Core.Option.{some-injective}
use hazelcast_commandline_cl.Prelude.{
  ◌≡◌, ap, sym, subst, ◌∙◌, ◌+◌, ◌<◌, ℕ, length, arith, Bool, true, Option, some, none, List, [],
  ◌∷◌, ◌++◌, append-nil, ◌>>=◌, ◌==◌, ==_iff, ◌≢◌, Bool-cases, inl, inr,
}
use hazelcast_commandline_cl.Wire.Bytes.{Bytes}
use hazelcast_commandline_cl.Wire.Protocol.{Protocol}
use hazelcast_commandline_cl.Wire.Layout.{HoldsFields, uuid_field, long_field}
use hazelcast_commandline_cl.Wire.Layout.Writes.{encode_boolean_lem}
use hazelcast_commandline_cl.Wire.Fields.{encode_boolean, decode_boolean}
use hazelcast_commandline_cl.Codec.Builtin.{
  encode_list_multi_frame_for_data, encode_nullable_for_data, decode_nullable_for_data, encode_data,
  next,
}
use hazelcast_commandline_cl.Codec.Builtin.Items.{decode_list_multi_frame_for_data}
use hazelcast_commandline_cl.Codec.Carries.{encode_nullable_for_data-Carries, encode_data-Carries}
use hazelcast_commandline_cl.Codec.Carries.Lists.{
  encode_list_multi_frame_for_data-Carries, item_frames, decode_entry_list-frames,
}
use hazelcast_commandline_cl.Codec.Responses.{
  response_offset, handle_topic_add_message_listener, decode_list_add_response,
  decode_list_contains_response, decode_list_remove_response, decode_multi_map_put_response,
  decode_set_remove_response, decode_topic_remove_message_listener_response,
  decode_map_key_set_response, decode_map_values_response, decode_multi_map_get_response,
  decode_multi_map_key_set_response, decode_multi_map_remove_response,
  decode_multi_map_values_response, decode_set_get_all_response,
  decode_list_remove_with_index_response, decode_list_set_response, decode_map_get_response,
  decode_map_remove_response, decode_map_set_with_max_idle_response, decode_queue_poll_response,
  decode_map_entry_set_response, decode_multi_map_entry_set_response,
}

pub data BooleanReply : Type 0 where
  list_add list_contains list_remove multi_map_put set_remove topic_remove_message_listener :
      BooleanReply

pub data ListReply : Type 0 where
  map_key_set map_values multi_map_get multi_map_key_set multi_map_remove multi_map_values
        set_get_all :
      ListReply

pub data NullableReply : Type 0 where
  list_remove_with_index list_set map_get map_remove map_set_with_max_idle queue_poll :
      NullableReply

pub data EntriesReply : Type 0 where
  map_entry_set multi_map_entry_set : EntriesReply

decode-encode_boolean :
    (buf out : Bytes) (off : ℕ) (b : Bool)
    → off < length buf
    → encode_boolean buf off b ≡ some out
    → decode_boolean out off ≡ some b
decode-encode_boolean buf out off b long h =
    let (out', e, r, _) = encode_boolean_lem buf off b (omega (arith, long)) in
    subst (λ o. decode_boolean o off ≡ some b) (some-injective out' out (sym e ∙ h)) r

module _ (p : Protocol) where
  open p use {
    Frame, Message, frames, content, is_end_frame, new_frame, Uuid, message_type,
    partition_id_offset, int_size,
  }

  abbrev pub decode_boolean_reply : BooleanReply → Message → Option Bool
  decode_boolean_reply list_add = decode_list_add_response p
  decode_boolean_reply list_contains = decode_list_contains_response p
  decode_boolean_reply list_remove = decode_list_remove_response p
  decode_boolean_reply multi_map_put = decode_multi_map_put_response p
  decode_boolean_reply set_remove = decode_set_remove_response p
  decode_boolean_reply topic_remove_message_listener =
      decode_topic_remove_message_listener_response p

  abbrev pub decode_list_reply : ListReply → Message → Option (List Bytes)
  decode_list_reply map_key_set = decode_map_key_set_response p
  decode_list_reply map_values = decode_map_values_response p
  decode_list_reply multi_map_get = decode_multi_map_get_response p
  decode_list_reply multi_map_key_set = decode_multi_map_key_set_response p
  decode_list_reply multi_map_remove = decode_multi_map_remove_response p
  decode_list_reply multi_map_values = decode_multi_map_values_response p
  decode_list_reply set_get_all = decode_set_get_all_response p

  abbrev pub decode_nullable_reply : NullableReply → Message → Option (Option Bytes)
  decode_nullable_reply list_remove_with_index = decode_list_remove_with_index_response p
  decode_nullable_reply list_set = decode_list_set_response p
  decode_nullable_reply map_get = decode_map_get_response p
  decode_nullable_reply map_remove = decode_map_remove_response p
  decode_nullable_reply map_set_with_max_idle = decode_map_set_with_max_idle_response p
  decode_nullable_reply queue_poll = decode_queue_poll_response p

  abbrev pub decode_entries_reply : EntriesReply → Message → Option (List (Bytes × Bytes))
  decode_entries_reply map_entry_set = decode_map_entry_set_response p
  decode_entries_reply multi_map_entry_set = decode_multi_map_entry_set_response p

  -- A reply whose initial frame was made of a long enough frame by writing a Boolean behind the header
  -- of the response decodes to that Boolean.
  pub decode_boolean_reply-encode :
      (k : BooleanReply) (m : Message) (initial : Frame) (behind : List Frame) (buf : Bytes)
      (b : Bool)
      → frames m ≡ initial ∷ behind
      → response_offset p < length buf
      → encode_boolean buf (response_offset p) b ≡ some (content initial)
      → decode_boolean_reply k m ≡ some b
  unfolding decode_list_add_response decode_list_contains_response decode_list_remove_response
      decode_multi_map_put_response decode_set_remove_response
      decode_topic_remove_message_listener_response
  decode_boolean_reply-encode list_add m initial behind buf b e long h =
      rw e (decode-encode_boolean buf (content initial) (response_offset p) b long h)
  decode_boolean_reply-encode list_contains m initial behind buf b e long h =
      rw e (decode-encode_boolean buf (content initial) (response_offset p) b long h)
  decode_boolean_reply-encode list_remove m initial behind buf b e long h =
      rw e (decode-encode_boolean buf (content initial) (response_offset p) b long h)
  decode_boolean_reply-encode multi_map_put m initial behind buf b e long h =
      rw e (decode-encode_boolean buf (content initial) (response_offset p) b long h)
  decode_boolean_reply-encode set_remove m initial behind buf b e long h =
      rw e (decode-encode_boolean buf (content initial) (response_offset p) b long h)
  decode_boolean_reply-encode topic_remove_message_listener m initial behind buf b e long h =
      rw e (decode-encode_boolean buf (content initial) (response_offset p) b long h)

  decode_list_reply_behind :
      (m : Message) (initial : Frame) (x : List Bytes)
      → frames m ≡ initial ∷ []
      → (next p (frames (encode_list_multi_frame_for_data p m x)) >>= λ (f, it).
          decode_list_multi_frame_for_data p it >>= λ (v, it₁). some v)
        ≡ some x
  decode_list_reply_behind m initial x e =
      let c = encode_list_multi_frame_for_data-Carries p m x in
      rw (c.appended ∙ ap (λ (l : List Frame). l ++ c.added) e)
        (rw (← (append-nil c.added)) (rw (c.decodes [])))

  -- A reply made of an initial frame and an encoded list of data decodes to that list.
  pub decode_list_reply-encode :
      (k : ListReply) (m : Message) (initial : Frame) (x : List Bytes)
      → frames m ≡ initial ∷ []
      → decode_list_reply k (encode_list_multi_frame_for_data p m x) ≡ some x
  unfolding decode_map_key_set_response decode_map_values_response decode_multi_map_get_response
      decode_multi_map_key_set_response decode_multi_map_remove_response
      decode_multi_map_values_response decode_set_get_all_response
  decode_list_reply-encode map_key_set m initial x e = decode_list_reply_behind m initial x e
  decode_list_reply-encode map_values m initial x e = decode_list_reply_behind m initial x e
  decode_list_reply-encode multi_map_get m initial x e = decode_list_reply_behind m initial x e
  decode_list_reply-encode multi_map_key_set m initial x e = decode_list_reply_behind m initial x e
  decode_list_reply-encode multi_map_remove m initial x e = decode_list_reply_behind m initial x e
  decode_list_reply-encode multi_map_values m initial x e = decode_list_reply_behind m initial x e
  decode_list_reply-encode set_get_all m initial x e = decode_list_reply_behind m initial x e

  decode_nullable_reply_behind :
      (m : Message) (initial : Frame) (x : Option Bytes)
      → frames m ≡ initial ∷ []
      → (next p (frames (encode_nullable_for_data p m x)) >>= λ (f, it).
          decode_nullable_for_data p it >>= λ (v, it₁). some v)
        ≡ some x
  decode_nullable_reply_behind m initial x e =
      let c = encode_nullable_for_data-Carries p m x in
      rw (c.appended ∙ ap (λ (l : List Frame). l ++ c.added) e)
        (rw (← (append-nil c.added)) (rw (c.decodes [])))

  -- A reply made of an initial frame and an encoded value, nil or not, decodes to that value.
  pub decode_nullable_reply-encode :
      (k : NullableReply) (m : Message) (initial : Frame) (x : Option Bytes)
      → frames m ≡ initial ∷ []
      → decode_nullable_reply k (encode_nullable_for_data p m x) ≡ some x
  unfolding decode_list_remove_with_index_response decode_list_set_response decode_map_get_response
      decode_map_remove_response decode_map_set_with_max_idle_response decode_queue_poll_response
  decode_nullable_reply-encode list_remove_with_index m initial x e =
      decode_nullable_reply_behind m initial x e
  decode_nullable_reply-encode list_set m initial x e = decode_nullable_reply_behind m initial x e
  decode_nullable_reply-encode map_get m initial x e = decode_nullable_reply_behind m initial x e
  decode_nullable_reply-encode map_remove m initial x e = decode_nullable_reply_behind m initial x e
  decode_nullable_reply-encode map_set_with_max_idle m initial x e =
      decode_nullable_reply_behind m initial x e
  decode_nullable_reply-encode queue_poll m initial x e = decode_nullable_reply_behind m initial x e

  -- A reply with a begin frame, the keys and values of some entries in turn, and an end frame
  -- decodes to those entries in their order.
  pub decode_entries_reply-item_frames :
      (k : EntriesReply) (m : Message) (initial b e : Frame) (es : List (Bytes × Bytes))
      → is_end_frame e ≡ true
      → frames m
        ≡ initial
          ∷ b
          ∷ item_frames p
              (λ (x : Bytes × Bytes). new_frame x.0)
              (λ x. new_frame x.1 ∷ [])
              es
              (e ∷ [])
      → decode_entries_reply k m ≡ some es
  unfolding decode_map_entry_set_response decode_multi_map_entry_set_response
  decode_entries_reply-item_frames map_entry_set m initial b e es end h =
      rw h (rw (decode_entry_list-frames p es b e [] end))
  decode_entries_reply-item_frames multi_map_entry_set m initial b e es end h =
      rw h (rw (decode_entry_list-frames p es b e [] end))

  -- A topic event is handled with the item, the publish time and the member of the message; a
  -- message of another type is not handled.
  pub handle_topic-HoldsFields :
      (m m' : Message) (initial : Frame) (item : Bytes) (t : ℕ) (u : Uuid)
      → frames m ≡ initial ∷ []
      → HoldsFields p
          (content initial)
          (partition_id_offset + int_size)
          (long_field t ∷ uuid_field u ∷ [])
      → message_type (encode_data p m item) ≡ 0x040202
      → message_type m' ≢ 0x040202
      → (handle_topic_add_message_listener p (encode_data p m item) ≡ some (some (item, t, u)))
        × (handle_topic_add_message_listener p m' ≡ some none)
  unfolding handle_topic_add_message_listener
  handle_topic-HoldsFields m m' initial item t u e h is_event other = (
    (let c = encode_data-Carries p m item in
        rw ((==_iff _ _).1 is_event) (
          rw (c.appended ∙ ap (λ (l : List Frame). l ++ c.added) e)
            (rw h.0 (rw h.1.0 (rw (← (append-nil c.added)) (rw (c.decodes []))))))),
    elim (Bool-cases (message_type m' == 0x040202)) [
      | inl same ↦ absurd (other ((==_iff _ _).0 same))
      | inr differs ↦ rw differs
    ],
  )
