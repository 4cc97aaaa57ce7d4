-- ===== src/Wire/Layout/Writes.antt =====
-- Fields written one behind the other are all read back.
use hazelcast_commandline_cl.Prelude.{
  ℕ, ◌+◌, ◌≤◌, ◌<◌, ◌^◌, ◌≡◌, refl, ap, sym, ◌∙◌, Bool, true, false, some, List, [], ◌∷◌, length,
  All, arith, Bool-cases, inl, inr,
}
use hazelcast_commandline_cl.Wire.Bytes.{
  Bytes, put_uint, uint, splice, le_bytes, length-splice, uint-splice, put_uint-eq,
  uint-splice_before,
}
use hazelcast_commandline_cl.Wire.Protocol.{Protocol}
use hazelcast_commandline_cl.Wire.Fields.{
  encode_long, decode_long, encode_int, decode_int, encode_boolean, decode_boolean, encode_uuid,
  decode_uuid,
}
use hazelcast_commandline_cl.Wire.Layout.{
  Field, bool_field, int_field, long_field, uuid_field, field_size, FieldFits, ReadsField,
  HoldsFields, encode_field, fields_size, write_fields,
}

-- `out` is `buf` after writes from `off` on.
pub record Written (buf out : Bytes) (off : ℕ) : Type 0 where
  pub same_length : length out ≡ length buf
  pub before : (j o : ℕ) → o + j ≤ off → uint j out o ≡ uint j buf o

-- `uint` reads the same of both between `lo` and `hi`.
abbrev pub Agree : ℕ → ℕ → Bytes → Bytes → Type 0
Agree lo hi a b = (j o : ℕ) → lo ≤ o → o + j ≤ hi → uint j a o ≡ uint j b o

Written-refl : (buf : Bytes) (off : ℕ) → Written buf buf off
Written-refl buf off = record { same_length = refl; before = λ j o h. refl }

Written-trans : {a b c : Bytes} {m n : ℕ} → Written a b m → Written b c n → m ≤ n → Written a c m
Written-trans u w h = record {
  same_length = w.same_length ∙ u.same_length;
  before = λ j o q. w.before j o (omega arith) ∙ u.before j o q;
}

put_uint_lem :
    (k : ℕ) (buf : Bytes) (off v : ℕ)
    → off + k ≤ length buf
    → v < 256 ^ k
    → (out : Bytes) × (put_uint k buf off v ≡ some out)
      × (uint k out off ≡ some v)
      × Written buf out off
put_uint_lem k buf off v h b = (
  splice buf off (le_bytes k v),
  put_uint-eq k buf off v h,
  uint-splice k buf off v h b,
  record {
    same_length = length-splice buf off (le_bytes k v);
    before = λ j o q. uint-splice_before j buf off (le_bytes k v) o q;
  },
)

pub encode_boolean_lem :
    (buf : Bytes) (off : ℕ) (b : Bool)
    → off + 1 ≤ length buf
    → (out : Bytes) × (encode_boolean buf off b ≡ some out)
      × (decode_boolean out off ≡ some b)
      × Written buf out off
unfolding encode_boolean decode_boolean
encode_boolean_lem buf off true h =
    let (out, e, r, w) = put_uint_lem 1 buf off 1 h (omega arith) in (out, e, rw r, w)
encode_boolean_lem buf off false h =
    let (out, e, r, w) = put_uint_lem 1 buf off 0 h (omega arith) in (out, e, rw r, w)

decode_boolean-eq :
    (a b : Bytes) (off : ℕ)
    → uint 1 a off ≡ uint 1 b off
    → decode_boolean a off ≡ decode_boolean b off
unfolding decode_boolean
decode_boolean-eq a b off h = rw h

module _ (p : Protocol) where
  open p use {
    Uuid, zero_uuid, is_default, boolean_size, int_size, long_size, uuid_size, boolean_size_lem,
    int_size_lem, long_size_lem, uuid_size_lem, is_default-zero, new_uuid_with-bits, msb_range,
    lsb_range, msb, lsb, new_uuid_with,
  }

  decode_uuid-parts :
      (c : Bytes) (off : ℕ) {m l : ℕ}
      → decode_boolean c off ≡ some false
      → decode_long c (off + boolean_size) ≡ some m
      → decode_long c (off + boolean_size + long_size) ≡ some l
      → decode_uuid p c off ≡ some (new_uuid_with m l)
  unfolding decode_uuid
  decode_uuid-parts c off e₁ e₂ e₃ = rw e₁ (rw e₂ (rw e₃))

  encode_uuid_lem :
      (buf : Bytes) (off : ℕ) (u : Uuid)
      → off + uuid_size ≤ length buf
      → (out : Bytes) × (encode_uuid p buf off u ≡ some out)
        × (decode_uuid p out off ≡ some u)
        × Written buf out off
  unfolding encode_uuid decode_uuid encode_long decode_long
  encode_uuid_lem buf off u h = elim (Bool-cases (is_default u)) [
    | inl zero ↦
        let (a, ea, ra, wa) = encode_boolean_lem buf off true (omega (arith, uuid_size_lem)) in
        (a, rw (zero, ea) refl, rw ra (ap some (sym (is_default-zero u zero))), wa)
    | inr set ↦
        let (a, ea, ra, wa) = encode_boolean_lem buf off false (omega (arith, uuid_size_lem)) in
        let (b, eb, rb, wb) =
          put_uint_lem 8 a (off + boolean_size) (msb u)
            (omega (arith, uuid_size_lem, boolean_size_lem, wa.same_length)) (msb_range u) in
        let (c, ec, rc, wc) =
          put_uint_lem 8 b (off + boolean_size + long_size) (lsb u)
            (omega (
              arith, uuid_size_lem, boolean_size_lem, long_size_lem, wa.same_length, wb.same_length,
            ))
            (lsb_range u) in
        (
          c,
          rw (set, ea) (rw eb ec),
          decode_uuid-parts c off
                (decode_boolean-eq c a off (
                    wc.before 1 off (omega (arith, boolean_size_lem))
                    ∙ wb.before 1 off (omega (arith, boolean_size_lem)))
                  ∙ ra)
                (wc.before 8 (off + boolean_size) (omega (arith, long_size_lem)) ∙ rb) rc
              ∙ ap some (new_uuid_with-bits u),
          Written-trans wa (Written-trans wb wc (omega arith)) (omega arith),
        )
  ]

  pub encode_field_lem :
      (buf : Bytes) (off : ℕ) (f : Field p)
      → off + field_size p f ≤ length buf
      → FieldFits p f
      → (out : Bytes) × (encode_field p buf off f ≡ some out)
        × ReadsField p out off f
        × Written buf out off
  unfolding encode_long encode_int decode_long decode_int
  encode_field_lem buf off (bool_field b) h fits =
      encode_boolean_lem buf off b (omega (arith, boolean_size_lem))
  encode_field_lem buf off (int_field v) h fits =
      put_uint_lem 4 buf off v (omega (arith, int_size_lem)) fits
  encode_field_lem buf off (long_field v) h fits =
      put_uint_lem 8 buf off v (omega (arith, long_size_lem)) fits
  encode_field_lem buf off (uuid_field u) h fits = encode_uuid_lem buf off u h

  pub ReadsField-Agree :
      (a b : Bytes) (off : ℕ) (f : Field p)
      → Agree off (off + field_size p f) a b
      → ReadsField p b off f
      → ReadsField p a off f
  unfolding decode_boolean decode_int decode_long decode_uuid
  ReadsField-Agree a b off (bool_field v) g r =
      rw (g 1 off (omega arith) (omega (arith, boolean_size_lem))) r
  ReadsField-Agree a b off (int_field v) g r =
      rw (g 4 off (omega arith) (omega (arith, int_size_lem))) r
  ReadsField-Agree a b off (long_field v) g r =
      rw (g 8 off (omega arith) (omega (arith, long_size_lem))) r
  ReadsField-Agree a b off (uuid_field u) g r =
      rw
        (
          g 1 off (omega arith) (omega (arith, uuid_size_lem)),
          g 8 (off + boolean_size) (omega arith) (omega (arith, uuid_size_lem, boolean_size_lem)),
          g 8 (off + boolean_size + long_size) (omega arith)
              (omega (arith, uuid_size_lem, boolean_size_lem, long_size_lem)),
        )
        r

  pub write_fields-HoldsFields :
      (fs : List (Field p)) (buf : Bytes) (off : ℕ)
      → off + fields_size p fs ≡ length buf
      → All (FieldFits p) fs
      → (out : Bytes) × (write_fields p buf off fs ≡ some out)
        × HoldsFields p out off fs
        × Written buf out off
  write_fields-HoldsFields [] buf off h fits = (buf, refl, omega arith, Written-refl buf off)
  write_fields-HoldsFields (f ∷ fs) buf off h fits =
      let (a, ea, ra, wa) = encode_field_lem buf off f (omega arith) fits.0 in
      let (b, eb, rb, wb) =
        write_fields-HoldsFields fs a (off + field_size p f) (omega (arith, wa.same_length))
          fits.1 in
      (
        b,
        rw ea eb,
        (ReadsField-Agree b a off f (λ j o lo hi. wb.before j o hi) ra, rb),
        Written-trans wa wb (omega arith),
      )

  -- The fields depend on nothing before them.
  pub HoldsFields-Agree :
      (fs : List (Field p)) (a b : Bytes) (off : ℕ)
      → length a ≡ length b
      → ((j o : ℕ) → off ≤ o → uint j a o ≡ uint j b o)
      → HoldsFields p b off fs
      → HoldsFields p a off fs
  HoldsFields-Agree [] a b off l g h = h ∙ sym l
  HoldsFields-Agree (f ∷ fs) a b off l g h = (
    ReadsField-Agree a b off f (λ j o lo hi. g j o lo) h.0,
    HoldsFields-Agree fs a b (off + field_size p f) l (λ j o q. g j o (omega arith)) h.1,
  )
