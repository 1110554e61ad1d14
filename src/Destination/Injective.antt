-- ===== src/Destination/Injective.antt =====
-- base58CheckEncode gives different buffers of one length different texts.
use ma_at.Prelude.{
  false, ℕ, zero, suc, ◌+◌, ◌*◌, ◌/◌, ◌%◌, ◌≤◌, ◌<◌, ◌≡◌, ◌≢◌, refl, sym, ap, ◌∙◌, Bool, true, some,
  List, [], ◌∷◌, ◌++◌, ◌==◌, if◌then◌else◌, length, length-append, All, Text, text, arith, ==_iff,
  Bool-cases, inl, inr,
}
use ma_at.Destination.{
  Bytes, base58_alphabet, nibble, from_hex, hex_digit, to_hex, take, big_endian, char_at,
  base58_digits, ones_for_zeros, with_checksum, base58_check_encode,
}

-- What a text of base58 digits stands for, read on from an accumulator.
index_of : ℕ → Text → ℕ
index_of c [] = 0
index_of c (d ∷ t) = if d == c then 0 else suc (index_of c t)

value_58 : ℕ → Text → ℕ
value_58 acc [] = acc
value_58 acc (c ∷ t) = value_58 (acc * 58 + index_of c base58_alphabet) t

-- The first digits of the alphabet are read back as what they stand for.
reads_back : ℕ → Bool
reads_back zero = true
reads_back (suc d) =
    let earlier = reads_back d in
    if index_of (char_at base58_alphabet d) base58_alphabet == d then earlier else false

reads_back-index :
    (n d : ℕ)
    → reads_back n ≡ true
    → d < n
    → index_of (char_at base58_alphabet d) base58_alphabet ≡ d
unfolding reads_back
reads_back-index zero d h lt = absurd (omega (arith, lt))
reads_back-index (suc n) d h lt = elim (Bool-cases (d == n)) [
  | inl e ↦ ground (
    arith,
    h,
    e,
    ap (λ x. index_of (char_at base58_alphabet x) base58_alphabet) ((==_iff d n).0 e),
  )
  | inr e ↦ reads_back-index n d (ground (arith, h)) (ground (arith, lt, e))
]

alphabet_reads_back : reads_back 58 ≡ true
unfolding reads_back index_of char_at text
alphabet_reads_back = refl

digit_index : (d : ℕ) → d < 58 → index_of (char_at base58_alphabet d) base58_alphabet ≡ d
digit_index d h = reads_back-index 58 d alphabet_reads_back h

base58_digits-value :
    (fuel value : ℕ) (result : Text)
    → value ≤ fuel
    → value_58 0 (base58_digits fuel value result) ≡ value_58 value result
unfolding base58_digits value_58
base58_digits-value zero value result h = ap (λ v. value_58 v result) (omega (arith, h))
base58_digits-value (suc fuel) value result h = elim (Bool-cases (value == 0)) [
  | inl e ↦ rw e (ap (λ v. value_58 v result) (ground (arith, e)))
  | inr e ↦ rw e (
      base58_digits-value fuel (value / 58) _ (ground (arith, h, e))
      ∙ ap (λ v. value_58 v result) (omega (arith, digit_index (value % 58) (omega arith))))
]

ones-value :
    (bs : Bytes) (result : Text) → value_58 0 (ones_for_zeros bs result) ≡ value_58 0 result
unfolding ones_for_zeros value_58 index_of text
ones-value [] result = refl
ones-value (b ∷ bs) result = elim (Bool-cases (b == 0)) [
  | inl e ↦ rw e (ones-value bs (b'1' ∷ result))
  | inr e ↦ rw e refl
]

-- Numerals of one length that stand for one number are one numeral.
abbrev pub IsBytes : Bytes → Type 0
IsBytes bs = All (λ b. b < 256) bs

big_endian-injective :
    (acc acc' : ℕ) (xs ys : Bytes)
    → length xs ≡ length ys
    → IsBytes xs
    → IsBytes ys
    → big_endian acc xs ≡ big_endian acc' ys
    → (acc ≡ acc') × (xs ≡ ys)
unfolding big_endian
big_endian-injective acc acc' [] [] l hx hy e = (e, refl)
big_endian-injective acc acc' [] (y ∷ ys) l hx hy e = absurd (omega (arith, l))
big_endian-injective acc acc' (x ∷ xs) [] l hx hy e = absurd (omega (arith, l))
big_endian-injective acc acc' (x ∷ xs) (y ∷ ys) l hx hy e =
    let ih =
      big_endian-injective (acc * 256 + x) (acc' * 256 + y) xs ys (omega (arith, l)) hx.1 hy.1 e in
    let same : x ≡ y = omega (arith, ih.0, hx.0, hy.0) in
    (omega (arith, ih.0, hx.0, hy.0), cc (same, ih.1))

nibble-hex_digit : (n : ℕ) → n < 16 → nibble (hex_digit n) ≡ some n
unfolding nibble hex_digit
nibble-hex_digit n h = ground arith

-- A buffer is read back from its hexadecimal text.
from_hex-to_hex : (bs : Bytes) → IsBytes bs → from_hex (to_hex bs) ≡ bs
unfolding from_hex to_hex
from_hex-to_hex [] h = refl
from_hex-to_hex (b ∷ bs) h =
    rw
      (
        nibble-hex_digit (b / 16) (omega (arith, h.0)),
        nibble-hex_digit (b % 16) (omega arith),
        from_hex-to_hex bs h.1,
      )
      (ap (λ x. x ∷ bs) (omega arith))

append-injective {ℓ} :
    {A : Type ℓ} (xs ys us vs : List A) → length xs ≡ length ys → (xs ++ us) ≡ (ys ++ vs) → xs ≡ ys
append-injective [] [] us vs l e = refl
append-injective [] (y ∷ ys) us vs l e = absurd (omega (arith, l))
append-injective (x ∷ xs) [] us vs l e = absurd (omega (arith, l))
append-injective (x ∷ xs) (y ∷ ys) us vs l e =
    let tails : (xs ++ us) ≡ (ys ++ vs) = cc in
    let same : xs ≡ ys = append-injective xs ys us vs (omega (arith, l)) tails in cc

All-append {κ} :
    {A : Type 0} (P : A → Type κ) (xs ys : List A) → All P xs → All P ys → All P (xs ++ ys)
All-append P [] ys h k = k
All-append P (x ∷ xs) ys h k = (h.0, All-append P xs ys h.1 k)

take-IsBytes : (n : ℕ) (bs : Bytes) → IsBytes bs → IsBytes (take n bs)
unfolding take
take-IsBytes zero bs h = tt
take-IsBytes (suc n) [] h = tt
take-IsBytes (suc n) (b ∷ bs) h = (h.0, take-IsBytes n bs h.1)

length-take : (n : ℕ) (bs : Bytes) → n ≤ length bs → length (take n bs) ≡ n
unfolding take
length-take zero bs h = refl
length-take (suc n) [] h = absurd (omega (arith, h))
length-take (suc n) (b ∷ bs) h = ap suc (length-take n bs (omega (arith, h)))

-- A hash function answers with as many bytes as the checksum needs.
pub record IsHash (sha256 : Bytes → Bytes) : Type 0 where
  pub bytes : (bs : Bytes) → IsBytes (sha256 bs)
  pub long : (bs : Bytes) → 4 ≤ length (sha256 bs)

module _ (sha256 : Bytes → Bytes) (hash : IsHash sha256) where
  with_checksum-IsBytes : (bs : Bytes) → IsBytes bs → IsBytes (with_checksum sha256 bs)
  unfolding with_checksum
  with_checksum-IsBytes bs h =
      All-append (λ b. b < 256) bs _ h
        (take-IsBytes 4 (sha256 (sha256 bs)) (hash.bytes (sha256 bs)))

  length-with_checksum : (bs : Bytes) → length (with_checksum sha256 bs) ≡ length bs + 4
  unfolding with_checksum
  length-with_checksum bs =
      length-append bs (take 4 (sha256 (sha256 bs)))
      ∙ ap (λ n. length bs + n) (length-take 4 (sha256 (sha256 bs)) (hash.long (sha256 bs)))

  encoded-value :
      (bs : Bytes)
      → IsBytes bs
      → value_58 0 (base58_check_encode sha256 (to_hex bs)) ≡ big_endian 0 (with_checksum sha256 bs)
  unfolding base58_check_encode value_58
  encoded-value bs h = rw (from_hex-to_hex bs h) (
      ones-value (with_checksum sha256 bs) _
      ∙ base58_digits-value (big_endian 0 (with_checksum sha256 bs)) _ [] (omega arith))

  base58_check_encode-injective :
      (xs ys : Bytes)
      → length xs ≡ length ys
      → IsBytes xs
      → IsBytes ys
      → base58_check_encode sha256 (to_hex xs) ≡ base58_check_encode sha256 (to_hex ys)
      → xs ≡ ys
  unfolding with_checksum
  base58_check_encode-injective xs ys l hx hy e =
      append-injective xs ys _ _ l
        (big_endian-injective 0 0 (with_checksum sha256 xs) (with_checksum sha256 ys)
          (length-with_checksum xs ∙ ap (λ n. n + 4) l ∙ sym (length-with_checksum ys))
          (with_checksum-IsBytes xs hx) (with_checksum-IsBytes ys hy)
          (sym (encoded-value xs hx) ∙ ap (value_58 0) e ∙ encoded-value ys hy)).1

  -- With a hash function that answers with bytes, four of them at least, two different buffers of one
  -- length have different base58 texts with checksum.
  pub base58_check_encode-ne :
      (xs ys : Bytes)
      → length xs ≡ length ys
      → IsBytes xs
      → IsBytes ys
      → xs ≢ ys
      → base58_check_encode sha256 (to_hex xs) ≢ base58_check_encode sha256 (to_hex ys)
  base58_check_encode-ne xs ys l hx hy ne e = ne (base58_check_encode-injective xs ys l hx hy e)
