-- ===== src/Ring/Hash.antt =====
-- packages/consistent-hash/src/RingHash.ts: the 32-bit hash that places nodes and keys on the ring.
-- A 32-bit value is its unsigned reading; `Math.imul` followed by `>>> 0` is the product modulo 2^32,
-- and a signed intermediate has the same bits.
use distributive_cache.Base.{
  ℕ, zero, suc, ◌+◌, ◌/◌, ◌%◌, ◌^◌, ◌<◌, bit_xor, [], ◌∷◌, Text, arith, ltb, if◌then◌else◌, u32,
  to_uint32, imul,
}

fnv1a32_from : ℕ → Text → ℕ
unfolding imul
fnv1a32_from hash [] = hash
fnv1a32_from hash (c ∷ cs) = fnv1a32_from (imul (bit_xor hash c) 0x01000193) cs

unfoldable pub fnv1a32 : Text → ℕ → ℕ
unfolding fnv1a32_from to_uint32
fnv1a32 input seed = to_uint32 (fnv1a32_from (to_uint32 (bit_xor 0x811c9dc5 seed)) input)

djb2_from : ℕ → Text → ℕ
unfolding imul to_uint32
djb2_from hash [] = hash
djb2_from hash (c ∷ cs) = djb2_from (to_uint32 (imul hash 33 + c)) cs

unfoldable pub djb2 : Text → ℕ → ℕ
unfolding djb2_from to_uint32
djb2 input seed = to_uint32 (djb2_from (to_uint32 seed) input)

-- `x ^= x >>> k`
fold_shift : ℕ → ℕ → ℕ
fold_shift k x = bit_xor x (x / 2 ^ k)

unfoldable pub ring_hash : Text → ℕ
unfolding fnv1a32 djb2 imul to_uint32 fold_shift
ring_hash input =
    let mixed = to_uint32 (bit_xor (fnv1a32 input 0) (imul (djb2 input 5381) 0x9e3779b1)) in
    to_uint32 (fold_shift 13 (imul (fold_shift 15 mixed) 0x85ebca6b))

-- Every position lies on the ring.
pub ring_hash-lt : (input : Text) → ring_hash input < u32
unfolding ring_hash
ring_hash-lt input = omega arith

decimal_from : ℕ → ℕ → Text → Text
decimal_from zero n acc = acc
decimal_from (suc fuel) n acc =
    let acc' = (n % 10 + b'0') ∷ acc in
    let rest = decimal_from fuel (n / 10) acc' in if ltb n 10 then acc' else rest

-- A number in a template string. It has at most as many digits as one more than itself.
unfoldable pub decimal : ℕ → Text
unfolding decimal_from
decimal n = decimal_from (suc n) n []
