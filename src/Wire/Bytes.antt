-- ===== src/Wire/Bytes.antt =====
-- Go's encoding/binary (LittleEndian.PutUint32, PutUint64, Uint32, Uint64) on a byte slice.
-- A slice is a list of byte values, and an index out of range (a panic) is `none`.
use hazelcast_commandline_cl.Prelude.{
  ℕ, zero, suc, ◌+◌, ◌*◌, ◌/◌, ◌%◌, ◌^◌, ◌≤◌, ◌<◌, ◌≡◌, refl, ap, Option, some, none, List, [], ◌∷◌,
  arith, leb, if◌then◌else◌, length, take, drop, replicate, le→leb,
}
use native.Mathlib.Nat.{pow-suc, pow-zero}

abbrev pub Bytes : Type 0
Bytes = List ℕ

-- `make([]byte, n)`
abbrev pub make_bytes : ℕ → Bytes
make_bytes n = replicate n 0

-- The `k` low bytes of `v`, the lowest first.
unfoldable pub le_bytes : ℕ → ℕ → Bytes
le_bytes zero v = []
le_bytes (suc k) v = (v % 256) ∷ le_bytes k (v / 256)

unfoldable pub le_value : Bytes → ℕ
le_value [] = 0
le_value (b ∷ bs) = b + 256 * le_value bs

-- `copy(buf[off:], ws)`, where `ws` fits
unfoldable pub splice : Bytes → ℕ → Bytes → Bytes
splice buf zero [] = buf
splice [] zero (w ∷ ws) = []
splice (b ∷ buf) zero (w ∷ ws) = w ∷ splice buf zero ws
splice [] (suc off) ws = []
splice (b ∷ buf) (suc off) ws = b ∷ splice buf off ws

-- `buf[off : off + k]`
abbrev pub slice : Bytes → ℕ → ℕ → Bytes
slice buf off k = take k (drop off buf)

pub length-le_bytes : (k v : ℕ) → length (le_bytes k v) ≡ k
unfolding le_bytes
length-le_bytes zero v = refl
length-le_bytes (suc k) v = ap suc (length-le_bytes k (v / 256))

pub le_value-le_bytes : (k v : ℕ) → v < 256 ^ k → le_value (le_bytes k v) ≡ v
unfolding le_bytes le_value
le_value-le_bytes zero v h = omega (arith, pow-zero 256)
le_value-le_bytes (suc k) v h =
    omega (arith, pow-suc 256 k, le_value-le_bytes k (v / 256) (omega (arith, pow-suc 256 k)))

pub length-splice : (buf : Bytes) (off : ℕ) (ws : Bytes) → length (splice buf off ws) ≡ length buf
unfolding splice
length-splice buf zero [] = refl
length-splice [] zero (w ∷ ws) = refl
length-splice (b ∷ buf) zero (w ∷ ws) = ap suc (length-splice buf zero ws)
length-splice [] (suc off) ws = refl
length-splice (b ∷ buf) (suc off) ws = ap suc (length-splice buf off ws)

pub slice-splice_self :
    (buf : Bytes) (off : ℕ) (ws : Bytes)
    → off + length ws ≤ length buf
    → slice (splice buf off ws) off (length ws) ≡ ws
unfolding splice
slice-splice_self buf zero [] h = refl
slice-splice_self [] zero (w ∷ ws) h = absurd (omega arith)
slice-splice_self (b ∷ buf) zero (w ∷ ws) h =
    ap (◌∷◌ w) (slice-splice_self buf zero ws (omega arith))
slice-splice_self [] (suc off) ws h = absurd (omega arith)
slice-splice_self (b ∷ buf) (suc off) ws h = slice-splice_self buf off ws (omega arith)

-- A write leaves what stands before it.
pub slice-splice_before :
    (buf : Bytes) (off : ℕ) (ws : Bytes) (o k : ℕ)
    → o + k ≤ off
    → slice (splice buf off ws) o k ≡ slice buf o k
unfolding splice
slice-splice_before buf off ws zero zero h = refl
slice-splice_before buf zero ws zero (suc k) h = absurd (omega arith)
slice-splice_before [] (suc off) ws zero (suc k) h = refl
slice-splice_before (b ∷ buf) (suc off) ws zero (suc k) h =
    ap (◌∷◌ b) (slice-splice_before buf off ws zero k (omega arith))
slice-splice_before buf zero ws (suc o) k h = absurd (omega arith)
slice-splice_before [] (suc off) ws (suc o) k h = refl
slice-splice_before (b ∷ buf) (suc off) ws (suc o) k h =
    slice-splice_before buf off ws o k (omega arith)

-- A write leaves what stands after it.
pub slice-splice_after :
    (buf : Bytes) (off : ℕ) (ws : Bytes) (o k : ℕ)
    → off + length ws ≤ o
    → slice (splice buf off ws) o k ≡ slice buf o k
unfolding splice
slice-splice_after buf zero [] o k h = refl
slice-splice_after [] zero (w ∷ ws) o k h = refl
slice-splice_after (b ∷ buf) zero (w ∷ ws) zero k h = absurd (omega arith)
slice-splice_after (b ∷ buf) zero (w ∷ ws) (suc o) k h =
    slice-splice_after buf zero ws o k (omega arith)
slice-splice_after [] (suc off) ws o k h = refl
slice-splice_after (b ∷ buf) (suc off) ws zero k h = absurd (omega arith)
slice-splice_after (b ∷ buf) (suc off) ws (suc o) k h =
    slice-splice_after buf off ws o k (omega arith)

-- `binary.LittleEndian.PutUintN(buffer[offset:], value)`, N = 8 * k
unfoldable pub put_uint : ℕ → Bytes → ℕ → ℕ → Option Bytes
put_uint k buf off v =
    if leb (off + k) (length buf) then some (splice buf off (le_bytes k v)) else none

-- `binary.LittleEndian.UintN(buffer[offset:])`, N = 8 * k
unfoldable pub uint : ℕ → Bytes → ℕ → Option ℕ
uint k buf off = if leb (off + k) (length buf) then some (le_value (slice buf off k)) else none

slice-splice-le_bytes :
    (k : ℕ) (buf : Bytes) (off v : ℕ)
    → off + k ≤ length buf
    → slice (splice buf off (le_bytes k v)) off k ≡ le_bytes k v
slice-splice-le_bytes k buf off v h =
    rw (length-le_bytes k v) at
      (slice-splice_self buf off (le_bytes k v) (omega (arith, length-le_bytes k v, h)))

-- A write of a value that fits succeeds and is read back.
pub uint-splice :
    (k : ℕ) (buf : Bytes) (off v : ℕ)
    → off + k ≤ length buf
    → v < 256 ^ k
    → uint k (splice buf off (le_bytes k v)) off ≡ some v
unfolding uint
uint-splice k buf off v h b =
    rw (length-splice buf off (le_bytes k v), le→leb _ _ h, slice-splice-le_bytes k buf off v h)
      (ap some (le_value-le_bytes k v b))

pub put_uint-eq :
    (k : ℕ) (buf : Bytes) (off v : ℕ)
    → off + k ≤ length buf
    → put_uint k buf off v ≡ some (splice buf off (le_bytes k v))
unfolding put_uint
put_uint-eq k buf off v h = rw (le→leb _ _ h)

-- A later write does not change what is read before it.
pub uint-splice_before :
    (k : ℕ) (buf : Bytes) (off : ℕ) (ws : Bytes) (o : ℕ)
    → o + k ≤ off
    → uint k (splice buf off ws) o ≡ uint k buf o
unfolding uint
uint-splice_before k buf off ws o h =
    rw (length-splice buf off ws, slice-splice_before buf off ws o k h)
