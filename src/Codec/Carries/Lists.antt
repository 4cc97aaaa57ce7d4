-- ===== src/Codec/Carries/Lists.antt =====
-- The lists of a message: what the encoder of a list appends, its decoder reads back.
use hazelcast_commandline_cl.Prelude.{
  ℕ, zero, suc, ◌+◌, ◌<◌, ◌≤◌, ◌≡◌, refl, sym, ap, ◌∙◌, true, false, some, List, [], ◌∷◌, ◌++◌, map,
  append-nil, append_assoc, length, length-append, arith,
}
use hazelcast_commandline_cl.Wire.Bytes.{Bytes}
use hazelcast_commandline_cl.Wire.Protocol.{Protocol}
use hazelcast_commandline_cl.Codec.Builtin.{
  Decoder, decode_string, decode_data, encode_each, encode_list_multi_frame_for_string,
  encode_list_multi_frame_for_data, new_begin_frame, new_end_frame,
}
use hazelcast_commandline_cl.Codec.Builtin.Items.{
  decode_items, decode_list_of, decode_list_multi_frame_for_string,
  decode_list_multi_frame_for_data, decode_entry, decode_entry_list_for_data_and_data,
}
use hazelcast_commandline_cl.Codec.Carries.{Carries}

module _ (p : Protocol) where
  open p use {
    Frame, Message, frames, add_frame, new_frame, is_end_frame, frames-add_frame, content-new_frame,
    new_frame-end, end_flag-end, content,
  }

  -- `item` reads the frames of `a` back as `view a`, and the first of them is no end frame.
  pub record IsItem {A B : Type 0} (item : Decoder p B) (first : A → Frame) (later : A → List Frame)
      (view : A → B) : Type 0 where
    pub plain : (a : A) → is_end_frame (first a) ≡ false
    pub reads :
        (a : A) (rest : List Frame) → item (first a ∷ (later a ++ rest)) ≡ some (view a, rest)

  module _ {A : Type 0} (first : A → Frame) (later : A → List Frame) where
    -- The frames of a list of items, with `rest` behind them.
    abbrev pub item_frames : List A → List Frame → List Frame
    item_frames [] rest = rest
    item_frames (a ∷ as') rest = first a ∷ (later a ++ item_frames as' rest)

    length-item_frames :
        (as' : List A) (rest : List Frame)
        → length as' + length rest ≤ length (item_frames as' rest)
    length-item_frames [] rest = omega arith
    length-item_frames (a ∷ as') rest =
        omega (arith, length-append (later a) (item_frames as' rest), length-item_frames as' rest)

  module _ {A B : Type 0} (item : Decoder p B) (first : A → Frame) (later : A → List Frame)
      (view : A → B) (ok : IsItem item first later view) where
    decode_items-item_frames :
        (as' : List A) (fuel : ℕ) (e : Frame) (rest : List Frame)
        → is_end_frame e ≡ true
        → length as' < fuel
        → decode_items p item fuel (item_frames first later as' (e ∷ rest))
          ≡ some (map view as', rest)
    unfolding decode_items
    decode_items-item_frames as' zero e rest end lt = elim lt [ ]
    decode_items-item_frames [] (suc fuel) e rest end lt = rw end
    decode_items-item_frames (a ∷ as') (suc fuel) e rest end lt = rw (ok.plain a) (
        rw (ok.reads a (item_frames first later as' (e ∷ rest)))
          (rw (decode_items-item_frames as' fuel e rest end (omega arith))))

    pub decode_list_of-item_frames :
        (as' : List A) (b e : Frame) (rest : List Frame)
        → is_end_frame e ≡ true
        → decode_list_of p item (b ∷ item_frames first later as' (e ∷ rest))
          ≡ some (map view as', rest)
    unfolding decode_list_of
    decode_list_of-item_frames as' b e rest end =
        decode_items-item_frames as' (suc (length (item_frames first later as' (e ∷ rest)))) e rest
          end (omega (arith, length-item_frames first later as' (e ∷ rest)))

  string-IsItem : IsItem (decode_string p) new_frame (λ (v : Bytes). []) (λ v. v)
  unfolding decode_string
  string-IsItem = record { plain = new_frame-end; reads = λ v rest. rw content-new_frame }

  data-IsItem : IsItem (decode_data p) new_frame (λ (v : Bytes). []) (λ v. v)
  unfolding decode_data
  data-IsItem = record { plain = new_frame-end; reads = λ v rest. rw content-new_frame }

  entry-IsItem :
      IsItem
        (decode_entry p)
        (λ (e : Bytes × Bytes). new_frame e.0)
        (λ e. new_frame e.1 ∷ [])
        (λ e. e)
  unfolding decode_entry
  entry-IsItem = record {
    plain = λ e. new_frame-end e.0;
    reads = λ e rest. rw (content-new_frame e.0) (rw (content-new_frame e.1));
  }

  plain_frames : List Bytes → List Frame → List Frame
  plain_frames = item_frames new_frame (λ (v : Bytes). [])

  plain_frames-append :
      (vs : List Bytes) (xs ys : List Frame) → plain_frames vs xs ++ ys ≡ plain_frames vs (xs ++ ys)
  unfolding plain_frames
  plain_frames-append [] xs ys = refl
  plain_frames-append (v ∷ vs) xs ys = ap (◌∷◌ (new_frame v)) (plain_frames-append vs xs ys)

  frames-encode_each :
      (vs : List Bytes) (m : Message) → frames (encode_each p m vs) ≡ frames m ++ plain_frames vs []
  unfolding encode_each plain_frames
  frames-encode_each [] m = sym (append-nil (frames m))
  frames-encode_each (v ∷ vs) m =
      frames-encode_each vs (add_frame (new_frame v) m)
      ∙ rw frames-add_frame (append_assoc (frames m) (new_frame v ∷ []) (plain_frames vs []))

  map_self : {A : Type 0} (xs : List A) → map (λ (x : A). x) xs ≡ xs
  map_self [] = refl
  map_self (x ∷ xs) = ap (◌∷◌ x) (map_self xs)

  frames_around :
      (m : Message) (vs : List Bytes) (b e : Frame)
      → frames (add_frame e (encode_each p (add_frame b m) vs))
        ≡ frames m ++ (b ∷ plain_frames vs (e ∷ []))
  frames_around m vs b e =
      rw frames-add_frame
        (rw frames-encode_each (rw frames-add_frame (simp (append_assoc, plain_frames-append))))

  decodes_around :
      (item : Decoder p Bytes)
      → IsItem item new_frame (λ (v : Bytes). []) (λ v. v)
      → (vs : List Bytes) (b e : Frame) (rest : List Frame) → is_end_frame e ≡ true
      → decode_list_of p item ((b ∷ plain_frames vs (e ∷ [])) ++ rest) ≡ some (vs, rest)
  unfolding plain_frames
  decodes_around item ok vs b e rest end = rw (plain_frames-append vs (e ∷ []) rest) (
      decode_list_of-item_frames item new_frame (λ (v : Bytes). []) (λ v. v) ok vs b e rest end
      ∙ rw map_self)

  pub encode_list_multi_frame_for_string-Carries :
      (m : Message) (vs : List Bytes)
      → Carries p m
          (encode_list_multi_frame_for_string p m vs)
          (decode_list_multi_frame_for_string p)
          vs
  unfolding encode_list_multi_frame_for_string decode_list_multi_frame_for_string
  encode_list_multi_frame_for_string-Carries m vs = record {
    added = new_begin_frame p ∷ plain_frames vs (new_end_frame p ∷ []);
    appended = frames_around m vs (new_begin_frame p) (new_end_frame p);
    decodes = λ rest.
        decodes_around (decode_string p) string-IsItem vs (new_begin_frame p) (new_end_frame p) rest
          end_flag-end;
  }

  pub encode_list_multi_frame_for_data-Carries :
      (m : Message) (vs : List Bytes)
      → Carries p m
          (encode_list_multi_frame_for_data p m vs)
          (decode_list_multi_frame_for_data p)
          vs
  unfolding encode_list_multi_frame_for_data decode_list_multi_frame_for_data
  encode_list_multi_frame_for_data-Carries m vs = record {
    added = new_begin_frame p ∷ plain_frames vs (new_end_frame p ∷ []);
    appended = frames_around m vs (new_begin_frame p) (new_end_frame p);
    decodes = λ rest.
        decodes_around (decode_data p) data-IsItem vs (new_begin_frame p) (new_end_frame p) rest
          end_flag-end;
  }

  pub decode_entry_list-frames :
      (es : List (Bytes × Bytes)) (b e : Frame) (rest : List Frame)
      → is_end_frame e ≡ true
      → decode_entry_list_for_data_and_data p (
          b
          ∷ item_frames
              (λ (x : Bytes × Bytes). new_frame x.0)
              (λ x. new_frame x.1 ∷ [])
              es
              (e ∷ rest))
        ≡ some (es, rest)
  unfolding decode_entry_list_for_data_and_data
  decode_entry_list-frames es b e rest end =
      decode_list_of-item_frames (decode_entry p) (λ (x : Bytes × Bytes). new_frame x.0)
        (λ x. new_frame x.1 ∷ []) (λ x. x) entry-IsItem es b e rest end
      ∙ rw map_self
