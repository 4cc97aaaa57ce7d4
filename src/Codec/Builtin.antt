-- ===== src/Codec/Builtin.antt =====
-- internal/proto/codec/builtin.go: the parts of a message behind its initial frame. A string is its
-- bytes, and a nil `Data` is `none`.
pub mod Items
use hazelcast_commandline_cl.Prelude.{
  ℕ, zero, suc, ◌≡◌, Bool, true, false, ◌&&◌, ◌||◌, Option, some, none, List, [], ◌∷◌, ◌==◌, leb,
  if◌then◌else◌, ◌>>=◌, length,
}
use hazelcast_commandline_cl.Wire.Bytes.{Bytes}
use hazelcast_commandline_cl.Wire.Protocol.{Protocol}

-- The UTF-8 forms of the white space of Go's `unicode.IsSpace`.
is_space1 : ℕ → Bool
is_space1 a = (leb 9 a && leb a 13) || a == 32

is_space2 : ℕ → ℕ → Bool
is_space2 a b = a == 0xc2 && (b == 0x85 || b == 0xa0)

is_space3 : ℕ → ℕ → ℕ → Bool
is_space3 a b c =
    (a == 0xe1 && b == 0x9a && c == 0x80)
    || (a == 0xe2
        && b == 0x80
        && ((leb 0x80 c && leb c 0x8a) || c == 0xa8 || c == 0xa9 || c == 0xaf))
    || (a == 0xe2 && b == 0x81 && c == 0x9f)
    || (a == 0xe3 && b == 0x80 && c == 0x80)

-- `strings.TrimSpace(value) == ""`: the bytes are white space from end to end.
unfoldable pub is_blank : Bytes → Bool
unfolding is_space1 is_space2 is_space3
is_blank [] = true
is_blank (a ∷ []) = is_space1 a
is_blank (a ∷ b ∷ []) = elim (is_space1 a) [ true ↦ is_blank (b ∷ []) | false ↦ is_space2 a b ]
is_blank (a ∷ b ∷ c ∷ rest) = elim (is_space1 a) [
  | true ↦ is_blank (b ∷ c ∷ rest)
  | false ↦ elim (is_space2 a b) [
    | true ↦ is_blank (c ∷ rest)
    | false ↦ elim (is_space3 a b c) [ true ↦ is_blank rest | false ↦ false ]
  ]
]

module _ (p : Protocol) where
  open p use {
    Frame, content, new_frame, new_frame_with, begin_frame, end_frame, null_frame, is_begin_frame,
    is_end_frame, is_null_frame, begin_data_structure_flag, end_data_structure_flag, Message,
    add_frame,
  }

  -- A decoder takes the frames that are left, and leaves some of them.
  abbrev pub Decoder : Type 0 → Type 0
  Decoder A = List Frame → Option (A × List Frame)

  -- `frameIterator.Next()`
  abbrev pub next : Decoder Frame
  next [] = none
  next (f ∷ it) = some (f, it)

  -- `frameIterator.PeekNext()`
  abbrev pub peek_next : List Frame → Option Frame
  peek_next [] = none
  peek_next (f ∷ it) = some f

  unfoldable pub next_frame_is_null_frame : Decoder Bool
  next_frame_is_null_frame it = do
    f ← peek_next it
    if is_null_frame f then (do (g, it₁) ← next it; some (true, it₁)) else some (false, it)

  unfoldable pub next_frame_is_data_structure_end_frame : List Frame → Option Bool
  next_frame_is_data_structure_end_frame it = do f ← peek_next it; some (is_end_frame f)

  unfoldable pub decode_string : Decoder Bytes
  decode_string it = do (f, it₁) ← next it; some (content f, it₁)

  unfoldable pub decode_data : Decoder Bytes
  decode_data it = do (f, it₁) ← next it; some (content f, it₁)

  unfoldable pub decode_nullable_for_string : Decoder Bytes
  unfolding next_frame_is_null_frame decode_string
  decode_nullable_for_string it = do
    (null, it₁) ← next_frame_is_null_frame it
    if null then some ([], it₁) else decode_string it₁

  unfoldable pub decode_nullable_for_data : Decoder (Option Bytes)
  unfolding next_frame_is_null_frame decode_data
  decode_nullable_for_data it = do
    (null, it₁) ← next_frame_is_null_frame it
    if null then some (none, it₁) else (do (d, it₂) ← decode_data it₁; some (some d, it₂))

  unfoldable pub encode_string : Message → Bytes → Message
  encode_string message value = add_frame (new_frame value) message

  unfoldable pub encode_data : Message → Bytes → Message
  encode_data message value = add_frame (new_frame value) message

  unfoldable pub encode_byte_array : Message → Bytes → Message
  encode_byte_array message value = add_frame (new_frame value) message

  unfoldable pub encode_nullable_for_string : Message → Bytes → Message
  unfolding encode_string
  encode_nullable_for_string message value =
      if is_blank value then add_frame null_frame message else encode_string message value

  unfoldable pub encode_nullable_for_data : Message → Option Bytes → Message
  unfolding encode_data
  encode_nullable_for_data message none = add_frame null_frame message
  encode_nullable_for_data message (some data') = encode_data message data'

  abbrev pub new_begin_frame : Frame
  new_begin_frame = new_frame_with [] begin_data_structure_flag

  abbrev pub new_end_frame : Frame
  new_end_frame = new_frame_with [] end_data_structure_flag

  -- The loop of EncodeListMultiFrameForString and EncodeListMultiFrameForData.
  unfoldable pub encode_each : Message → List Bytes → Message
  encode_each message [] = message
  encode_each message (v ∷ values) = encode_each (add_frame (new_frame v) message) values

  unfoldable pub encode_list_multi_frame_for_string : Message → List Bytes → Message
  unfolding encode_each
  encode_list_multi_frame_for_string message values =
      add_frame new_end_frame (encode_each (add_frame new_begin_frame message) values)

  unfoldable pub encode_list_multi_frame_for_data : Message → List Bytes → Message
  unfolding encode_each
  encode_list_multi_frame_for_data message values =
      add_frame new_end_frame (encode_each (add_frame new_begin_frame message) values)

  -- `expectedEndFrames` is the first argument.
  unfoldable pub fast_forward : ℕ → List Frame → Option (List Frame)
  fast_forward zero it = some it
  fast_forward (suc n) [] = none
  fast_forward (suc n) (f ∷ it) =
      fast_forward (if is_end_frame f then n else if is_begin_frame f then suc (suc n) else suc n)
        it

  unfoldable pub fast_forward_to_end_frame : List Frame → Option (List Frame)
  unfolding fast_forward
  fast_forward_to_end_frame = fast_forward 1
