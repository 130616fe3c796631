-- ===== src/Session/Ids.antt =====
-- internal/session/session.go: randomID, which prints 16 random bytes in hexadecimal.
use unwedge.Base.{
  ℕ, ◌+◌, ◌-◌, ◌*◌, ◌/◌, ◌%◌, ◌<◌, ◌≡◌, ◌≢◌, refl, ap, Bytes, [], ◌∷◌, length, ltb, if◌then◌else◌,
  All, arith,
}

-- One digit of the table "0123456789abcdef".
unfoldable pub hex_digit : ℕ → ℕ
hex_digit d = if ltb d 10 then b'0' + d else b'a' + (d - 10)

-- hex.EncodeToString: two digits for each byte, the high one first.
unfoldable pub hex_encode : Bytes → Bytes
unfolding hex_digit
hex_encode [] = []
hex_encode (b ∷ ys) = hex_digit (b / 16) ∷ hex_digit (b % 16) ∷ hex_encode ys

-- `bytes` is what the random source puts into the array of 16 bytes.
unfoldable pub random_id : Bytes → Bytes
unfolding hex_encode
random_id bytes = hex_encode bytes

hex_digit-injective : (a b : ℕ) → a < 16 → b < 16 → hex_digit a ≡ hex_digit b → a ≡ b
unfolding hex_digit
hex_digit-injective a b ha hb h = ground arith

byte-hex_digit :
    (a b : ℕ)
    → a < 256
    → b < 256
    → hex_digit (a / 16) ≡ hex_digit (b / 16)
    → hex_digit (a % 16) ≡ hex_digit (b % 16)
    → a ≡ b
byte-hex_digit a b ha hb h l = omega (
  arith,
  hex_digit-injective (a / 16) (b / 16) (omega arith) (omega arith) h,
  hex_digit-injective (a % 16) (b % 16) (omega arith) (omega arith) l,
)

length-hex_encode : (ys : Bytes) → length (hex_encode ys) ≡ 2 * length ys
unfolding hex_encode
length-hex_encode [] = refl
length-hex_encode (b ∷ ys) = omega (arith, length-hex_encode ys)

hex_encode-injective :
    (xs ys : Bytes)
    → All (λ b. b < 256) xs
    → All (λ b. b < 256) ys
    → hex_encode xs ≡ hex_encode ys
    → xs ≡ ys
unfolding hex_encode
hex_encode-injective [] [] ha hb h = refl
hex_encode-injective [] (b ∷ ys) ha hb h = cc
hex_encode-injective (a ∷ xs) [] ha hb h = cc
hex_encode-injective (a ∷ xs) (b ∷ ys) (ha, hxs) (hb, hys) h =
    let tails : xs ≡ ys = hex_encode-injective xs ys hxs hys (cc) in
    let heads : a ≡ b = byte-hex_digit a b ha hb (cc) (cc) in cc

-- An id has 32 digits, so it is never the empty id of a free lock; and two ids are equal only if
-- the random bytes are.
pub random_id_lem :
    (xs ys : Bytes)
    → length xs ≡ 16
    → All (λ b. b < 256) xs
    → All (λ b. b < 256) ys
    → (length (random_id xs) ≡ 32) × (random_id xs ≢ []) × (random_id xs ≡ random_id ys → xs ≡ ys)
unfolding random_id
random_id_lem xs ys len ha hb =
    (omega (arith, length-hex_encode xs), λ e. absurd (never e), hex_encode-injective xs ys ha hb)
  where
    never : hex_encode xs ≡ [] → ⊥
    never e = omega (arith, length-hex_encode xs, ap length e)
