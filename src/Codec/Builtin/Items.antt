-- ===== src/Codec/Builtin/Items.antt =====
-- The lists of builtin.go: DecodeListMultiFrameForString, DecodeListMultiFrameForData and
-- DecodeEntryListForDataAndData are one loop over the decoder of an item, and so are the lists of
-- job summaries and of index configurations. An item takes at least one frame, so the number of
-- frames left is fuel enough.
use hazelcast_commandline_cl.Prelude.{
  ℕ, zero, suc, some, none, List, [], ◌∷◌, if◌then◌else◌, ◌>>=◌, length,
}
use hazelcast_commandline_cl.Wire.Bytes.{Bytes}
use hazelcast_commandline_cl.Wire.Protocol.{Protocol}
use hazelcast_commandline_cl.Codec.Builtin.{
  Decoder, next, decode_data, decode_string, next_frame_is_data_structure_end_frame,
}

module _ (p : Protocol) where
  open p use {Frame}

  unfoldable pub decode_items : {A : Type 0} → Decoder p A → ℕ → Decoder p (List A)
  unfolding next_frame_is_data_structure_end_frame
  decode_items item zero it = none
  decode_items item (suc fuel) it = do
    ended ← next_frame_is_data_structure_end_frame p it
    if ended
        then (do (e, it₁) ← next p it; some ([], it₁))
        else (do (x, it₁) ← item it; (xs, it₂) ← decode_items item fuel it₁; some (x ∷ xs, it₂))

  -- The begin frame, the items, and the end frame.
  unfoldable pub decode_list_of : {A : Type 0} → Decoder p A → Decoder p (List A)
  unfolding decode_items
  decode_list_of item it = do (begin, it₁) ← next p it; decode_items item (length it) it₁

  unfoldable pub decode_list_multi_frame_for_string : Decoder p (List Bytes)
  unfolding decode_list_of decode_string
  decode_list_multi_frame_for_string = decode_list_of (decode_string p)

  unfoldable pub decode_list_multi_frame_for_data : Decoder p (List Bytes)
  unfolding decode_list_of decode_data
  decode_list_multi_frame_for_data = decode_list_of (decode_data p)

  unfoldable pub decode_entry : Decoder p (Bytes × Bytes)
  unfolding decode_data
  decode_entry it = do
    (key, it₁) ← decode_data p it
    (value, it₂) ← decode_data p it₁
    some ((key, value), it₂)

  unfoldable pub decode_entry_list_for_data_and_data : Decoder p (List (Bytes × Bytes))
  unfolding decode_list_of decode_entry
  decode_entry_list_for_data_and_data = decode_list_of decode_entry
