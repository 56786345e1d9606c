-- ===== src/Crypto/Padding.antt =====
-- internal/crypto/crypto.go: the padding of PKCS #7. A block is at most 255 bytes, so that `byte(padding)`
-- is the number.
use go_database.Base.{
  ltb, ◌==◌, if◌then◌else◌, ==_refl, length, take, drop, is_nil, all, length-append, Str, str, ℕ,
  zero, suc, ◌+◌, ◌-◌, ◌≤◌, ◌<◌, ◌≡◌, refl, ap, ◌∙◌, true, false, ◌||◌, List, [], ◌∷◌, ◌++◌, arith,
}
use Prim.Native.Nat.{◌%◌}
use native.Mathlib.Nat.{mod-lt}
use go_database.Plugin.Types.{Reply, ok, err}

unfoldable pub repeat_byte : ℕ → ℕ → Str
repeat_byte zero b = []
repeat_byte (suc n) b = b ∷ repeat_byte n b

abbrev pub padding_of : Str → ℕ → ℕ
padding_of bytes block = block - length bytes % block

-- `padPKCS7`
unfoldable pub pad_pkcs7 : Str → ℕ → Str
unfolding repeat_byte
pad_pkcs7 bytes block = bytes ++ repeat_byte (padding_of bytes block) (padding_of bytes block)

last_byte : ℕ → Str → ℕ
last_byte b [] = b
last_byte b (c ∷ s) = last_byte c s

-- `unpadPKCS7`
unfoldable pub unpad_pkcs7 : Str → Reply Str
unfolding last_byte
unpad_pkcs7 bytes =
    let padding = last_byte 0 bytes in
    if is_nil bytes
    then err (str "empty data")
    else if ltb (length bytes) padding || ltb 256 padding
    then err (str "invalid padding")
    else if all (λ b. b == padding) (drop (length bytes - padding) bytes)
    then ok (take (length bytes - padding) bytes)
    else err (str "invalid padding byte")

length-repeat_byte : (n b : ℕ) → length (repeat_byte n b) ≡ n
unfolding repeat_byte
length-repeat_byte zero b = refl
length-repeat_byte (suc n) b = ap suc (length-repeat_byte n b)

all-repeat_byte : (n b : ℕ) → all (λ c. c == b) (repeat_byte n b) ≡ true
unfolding repeat_byte
all-repeat_byte zero b = refl
all-repeat_byte (suc n) b = rw (==_refl b, all-repeat_byte n b) refl

last_byte-append : (a : ℕ) (s : Str) (b : ℕ) (t : Str) → last_byte a (s ++ b ∷ t) ≡ last_byte b t
unfolding last_byte
last_byte-append a [] b t = refl
last_byte-append a (c ∷ s) b t = last_byte-append c s b t

last_byte-repeat_byte : (n b : ℕ) → last_byte b (repeat_byte n b) ≡ b
unfolding last_byte repeat_byte
last_byte-repeat_byte zero b = refl
last_byte-repeat_byte (suc n) b = last_byte-repeat_byte n b

take-length {ℓ} : {A : Type ℓ} (xs ys : List A) → take (length xs) (xs ++ ys) ≡ xs
take-length [] ys = refl
take-length (x ∷ xs) ys = ap (λ r. x ∷ r) (take-length xs ys)

drop-length {ℓ} : {A : Type ℓ} (xs ys : List A) → drop (length xs) (xs ++ ys) ≡ ys
drop-length [] ys = refl
drop-length (x ∷ xs) ys = drop-length xs ys

pub take_of {ℓ} : {A : Type ℓ} (n : ℕ) (xs ys : List A) → length xs ≡ n → take n (xs ++ ys) ≡ xs
take_of n xs ys size = rw (← size) (take-length xs ys)

pub drop_of {ℓ} : {A : Type ℓ} (n : ℕ) (xs ys : List A) → length xs ≡ n → drop n (xs ++ ys) ≡ ys
drop_of n xs ys size = rw (← size) (drop-length xs ys)

last_of_padded : (bytes : Str) (n : ℕ) → 1 ≤ n → last_byte 0 (bytes ++ repeat_byte n n) ≡ n
unfolding repeat_byte
last_of_padded bytes zero low = grind arith
last_of_padded bytes (suc n) low =
    last_byte-append 0 bytes (suc n) (repeat_byte n (suc n)) ∙ last_byte-repeat_byte n (suc n)

is_nil-padded : (bytes : Str) (n : ℕ) → 1 ≤ n → is_nil (bytes ++ repeat_byte n n) ≡ false
unfolding repeat_byte
is_nil-padded [] zero low = grind arith
is_nil-padded [] (suc n) low = refl
is_nil-padded (b ∷ bytes) n low = refl

unpad-repeat :
    (bytes : Str) (n : ℕ) → 1 ≤ n → n ≤ 255 → unpad_pkcs7 (bytes ++ repeat_byte n n) ≡ ok bytes
unfolding unpad_pkcs7
unpad-repeat bytes n low high =
    let more : n ≡ suc (n - 1) = omega arith in
    let last : last_byte 0 (bytes ++ repeat_byte n n) ≡ n = last_of_padded bytes n low in
    let whole = length-append bytes (repeat_byte n n) in
    let tail = length-repeat_byte n n in
    let size : length (bytes ++ repeat_byte n n) ≡ length bytes + n = omega arith in
    let some_bytes : is_nil (bytes ++ repeat_byte n n) ≡ false = is_nil-padded bytes n low in
    let start : length bytes + n - n ≡ length bytes = omega arith in
    let fits : (ltb (length bytes + n) n || ltb 256 n) ≡ false = ground (arith, high) in
    let padding : all (λ b. b == n) (drop (length bytes) (bytes ++ repeat_byte n n)) ≡ true =
      rw (drop-length bytes (repeat_byte n n)) (all-repeat_byte n n) in
    rw
      (
        unpad_pkcs7,
        last,
        some_bytes,
        size,
        fits,
        start,
        padding,
        take-length bytes (repeat_byte n n),
      )
      refl

pub length-pad_pkcs7 :
    (bytes : Str) (block : ℕ)
    → length (pad_pkcs7 bytes block) ≡ length bytes + padding_of bytes block
unfolding pad_pkcs7
length-pad_pkcs7 bytes block =
    length-append bytes (repeat_byte (padding_of bytes block) (padding_of bytes block))
    ∙ ap (λ n. length bytes + n)
        (length-repeat_byte (padding_of bytes block) (padding_of bytes block))

-- Unpadding gives back what was padded, for every block of 1 to 255 bytes.
pub unpad_pkcs7-pad :
    (bytes : Str) (block : ℕ)
    → 1 ≤ block
    → block ≤ 255
    → unpad_pkcs7 (pad_pkcs7 bytes block) ≡ ok bytes
unfolding pad_pkcs7
unpad_pkcs7-pad bytes block low high =
    let rest : length bytes % block < block = mod-lt (length bytes) low in
    unpad-repeat bytes (padding_of bytes block) (omega arith) (omega arith)
