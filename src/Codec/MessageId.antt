-- ===== src/Codec/MessageId.antt =====
-- `NewMessageID`: the 16 bytes that crypto/rand gives are a parameter.
use Prim.Native.Nat.{bit_and, bit_or}
use griffino_go.Base.{
  ℕ, zero, suc, ◌/◌, ◌%◌, ◌<◌, String, Option, none, some, List, [], ◌∷◌, ◌≡◌, refl, arith, eqb,
  Bool, true, ◌&&◌, All, length, subst,
}
use mathlib.Core.Option
use mathlib.Core.Option.{some-injective}
use griffino_go.Base.Text.{◌<>◌}
use griffino_go.Base.Number.{digit}

-- `%x` of a slice: two digits for each byte
unfoldable pub hex : List ℕ → String
hex [] = ""
hex (b ∷ bs) = digit (b / 16) <> digit (b % 16) <> hex bs

pub record Uuid : Type 0 where
  pub time_low : List ℕ  -- b[0:4]
  pub time_mid : List ℕ  -- b[4:6]
  pub time_hi : List ℕ  -- b[6:8]
  pub clock : List ℕ  -- b[8:10]
  pub node : List ℕ  -- b[10:16]

abbrev pub version_bits : ℕ → ℕ
version_bits b = bit_or (bit_and b 0x0f) 0x40

abbrev pub variant_bits : ℕ → ℕ
variant_bits b = bit_or (bit_and b 0x3f) 0x80

-- The bytes after the version and variant are set; `none` if there are not 16 of them.
unfoldable pub stamp : List ℕ → Option Uuid
stamp (b0 ∷ b1 ∷ b2 ∷ b3 ∷ b4 ∷ b5 ∷ b6 ∷ b7 ∷ b8 ∷ b9 ∷ ba ∷ bb ∷ bc ∷ bd ∷ be ∷ bf ∷ []) =
    some (record {
      time_low = b0 ∷ b1 ∷ b2 ∷ b3 ∷ [];
      time_mid = b4 ∷ b5 ∷ [];
      time_hi = version_bits b6 ∷ b7 ∷ [];
      clock = variant_bits b8 ∷ b9 ∷ [];
      node = ba ∷ bb ∷ bc ∷ bd ∷ be ∷ bf ∷ [];
    })
stamp _ = none

-- the format "%x-%x-%x-%x-%x"
unfoldable pub uuid_text : Uuid → String
unfolding hex
uuid_text u =
    hex u.time_low
    <> "-"
    <> hex u.time_mid
    <> "-"
    <> hex u.time_hi
    <> "-"
    <> hex u.clock
    <> "-"
    <> hex u.node

unfoldable pub new_message_id : List ℕ → Option String
unfolding stamp uuid_text
new_message_id random = Option.map uuid_text (stamp random)

abbrev is_below : ℕ → (ℕ → Bool) → Bool
is_below zero p = true
is_below (suc n) p = p n && is_below n p

is_below_sound : (n x : ℕ) (p : ℕ → Bool) → is_below n p ≡ true → x < n → p x ≡ true
is_below_sound zero x p h lt = absurd (omega arith)
is_below_sound (suc n) x p h lt = ground (arith, is_below_sound n x p)

abbrev version_fits : ℕ → Bool
version_fits b = eqb (version_bits b / 16) 4 && eqb (version_bits b % 16) (b % 16)

abbrev variant_fits : ℕ → Bool
variant_fits b = eqb (variant_bits b / 64) 2 && eqb (variant_bits b % 64) (b % 64)

version_table : is_below 256 version_fits ≡ true
version_table = refl

variant_table : is_below 256 variant_fits ≡ true
variant_table = refl

-- Whatever byte the source of randomness gave, the version nibble of the id is 4 and the two
-- variant bits are 10, and the other bits of both bytes stay as they were drawn.
pub stamp_bits :
    (b : ℕ)
    → b < 256
    → (version_bits b / 16 ≡ 4)
      × (version_bits b % 16 ≡ b % 16)
      × (variant_bits b / 64 ≡ 2)
      × (variant_bits b % 64 ≡ b % 64)
stamp_bits b h = ground (
  arith,
  is_below_sound 256 b version_fits version_table h,
  is_below_sound 256 b variant_fits variant_table h,
)

-- The first digit of the third group is 4, that of the fourth group one of 8, 9, a and b.
pub record IsVersion4 (u : Uuid) : Type 0 where
  pub version : ℕ
  pub third : ℕ
  pub time_hi : u.time_hi ≡ version ∷ third ∷ []
  pub version_4 : version / 16 ≡ 4
  pub variant : ℕ
  pub fourth : ℕ
  pub clock : u.clock ≡ variant ∷ fourth ∷ []
  pub variant_10 : variant / 64 ≡ 2

-- Of random bytes only sixteen make an id, and the id has the version and the variant of RFC 4122
-- version 4.
pub stamp-IsVersion4 :
    (random : List ℕ) (u : Uuid)
    → All (λ b. b < 256) random
    → stamp random ≡ some u
    → IsVersion4 u × (length random ≡ 16)
unfolding stamp
stamp-IsVersion4
      (b0 ∷ b1 ∷ b2 ∷ b3 ∷ b4 ∷ b5 ∷ b6 ∷ b7 ∷ b8 ∷ b9 ∷ ba ∷ bb ∷ bc ∷ bd ∷ be ∷ bf ∷ []) u h e =
    let at6 = stamp_bits b6 h.1.1.1.1.1.1.0 in
    let at8 = stamp_bits b8 h.1.1.1.1.1.1.1.1.0 in
    let same : _ ≡ u = some-injective _ _ e in
    (
      subst IsVersion4 same (record {
        version = version_bits b6;
        third = b7;
        time_hi = refl;
        version_4 = at6.0;
        variant = variant_bits b8;
        fourth = b9;
        clock = refl;
        variant_10 = at8.2;
      }),
      refl,
    )
stamp-IsVersion4 _ u h e = cc
