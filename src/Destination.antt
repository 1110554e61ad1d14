-- ===== src/Destination.antt =====
-- decodeDestinationWallet and base58CheckEncode, which orchestrator/src/listener.ts and
-- orchestrator/src/tron_listener.ts both have. A buffer is a list of bytes. SHA-256 of node and the
-- base58 form of a Solana PublicKey are parameters.
pub mod Injective
use ma_at.Prelude.{
  ℕ, zero, suc, ◌+◌, ◌-◌, ◌*◌, ◌/◌, ◌%◌, Bool, true, false, ◌&&◌, ◌||◌, not, Option, none, some,
  List, [], ◌∷◌, ◌++◌, ◌==◌, leb, ltb, if◌then◌else◌, length, map, Text, text, starts_with, or_else,
}
use ma_at.SettleGate.{solana_chain_id}

abbrev pub Bytes : Type 0
Bytes = List ℕ

abbrev pub base58_alphabet : Text
base58_alphabet = text "123456789ABCDEFGHJKLMNPQRSTUVWXYZabcdefghijkmnopqrstuvwxyz"

unfoldable pub tron_nile_chain_id : ℕ
tron_nile_chain_id = 3448148188

-- The value of a hexadecimal digit.
unfoldable pub nibble : ℕ → Option ℕ
nibble c =
    if leb b'0' c && leb c b'9'
    then some (c - 48)
    else if leb b'a' c && leb c b'f'
    then some (c - 87)
    else if leb b'A' c && leb c b'F'
    then some (c - 55)
    else none

abbrev byte_then : Option ℕ → Option ℕ → Bytes → Bytes
byte_then (some h) (some l) rest = (h * 16 + l) ∷ rest
byte_then _ _ rest = []

-- `Buffer.from(hex, "hex")`: it stops at the first pair that is not hexadecimal.
unfoldable pub from_hex : Text → Bytes
unfolding nibble
from_hex (h ∷ l ∷ t) = byte_then (nibble h) (nibble l) (from_hex t)
from_hex _ = []

unfoldable pub hex_digit : ℕ → ℕ
hex_digit n = if ltb n 10 then n + 48 else n + 87

unfoldable pub to_hex : Bytes → Text
unfolding hex_digit
to_hex [] = []
to_hex (b ∷ bs) = hex_digit (b / 16) ∷ hex_digit (b % 16) ∷ to_hex bs

unfoldable pub take : {A : Type 0} → ℕ → List A → List A
take zero xs = []
take (suc n) [] = []
take (suc n) (x ∷ xs) = x ∷ take n xs

unfoldable pub drop : {A : Type 0} → ℕ → List A → List A
drop zero xs = xs
drop (suc n) [] = []
drop (suc n) (x ∷ xs) = drop n xs

-- `BigInt("0x" + bytes.toString("hex"))`
unfoldable pub big_endian : ℕ → Bytes → ℕ
big_endian acc [] = acc
big_endian acc (b ∷ bs) = big_endian (acc * 256 + b) bs

unfoldable pub char_at : Text → ℕ → ℕ
char_at [] i = 0
char_at (c ∷ t) zero = c
char_at (c ∷ t) (suc i) = char_at t i

-- The loop on `value`, which falls in each round: as many rounds as it has units are enough.
unfoldable pub base58_digits : ℕ → ℕ → Text → Text
unfolding char_at
base58_digits zero value result = result
base58_digits (suc fuel) value result =
    let rest = base58_digits fuel (value / 58) (char_at base58_alphabet (value % 58) ∷ result) in
    if value == 0 then result else rest

unfoldable pub ones_for_zeros : Bytes → Text → Text
ones_for_zeros [] result = result
ones_for_zeros (b ∷ bs) result =
    let rest = ones_for_zeros bs (b'1' ∷ result) in if b == 0 then rest else result

module _ (sha256 : Bytes → Bytes) where
  unfoldable pub with_checksum : Bytes → Bytes
  with_checksum buf = buf ++ take 4 (sha256 (sha256 buf))

  unfoldable pub base58_check_encode : Text → Text
  unfolding base58_digits ones_for_zeros big_endian with_checksum
  base58_check_encode hex =
      let bytes = with_checksum (from_hex hex) in
      let value = big_endian 0 bytes in ones_for_zeros bytes (base58_digits value value [])

module _ (sha256 : Bytes → Bytes) (solana_base58 : Bytes → Text) where
  unfoldable pub decode_destination_wallet : Text → ℕ → Text
  decode_destination_wallet destination_wallet destination_chain_id =
      let bytes = from_hex (drop 2 destination_wallet) in
      if destination_chain_id == solana_chain_id
      then solana_base58 bytes
      else if destination_chain_id == tron_nile_chain_id
      then base58_check_encode sha256 (to_hex (take 21 bytes))
      else text "0x" ++ to_hex (drop 12 bytes)
