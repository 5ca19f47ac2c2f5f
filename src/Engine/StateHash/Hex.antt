-- ===== src/Engine/StateHash/Hex.antt =====
-- A printed hash has sixteen digits, and gives the hash back.
use native.Mathlib.Nat.{pow-suc}
use thunder_bolt_ht.Base.{
  ℕ, zero, suc, ◌+◌, ◌-◌, ◌*◌, ◌/◌, ◌%◌, ◌^◌, ◌<◌, ◌≡◌, ap, ◌∙◌, ltb, if◌then◌else◌, List, [], ◌∷◌,
  arith, length,
}
use thunder_bolt_ht.Engine.StateHash.{digit, hex_from, hash_to_string}

-- The value of a hexadecimal digit.
abbrev of_digit : ℕ → ℕ
of_digit c = if ltb c 58 then c - 48 else c - 87

-- The number that a list of digits writes, behind a number that stands before it.
pub of_hex : ℕ → List ℕ → ℕ
of_hex before [] = before
of_hex before (c ∷ cs) = of_hex (before * 16 + of_digit c) cs

of_digit-digit : (d : ℕ) → d < 16 → of_digit (digit d) ≡ d
of_digit-digit d lt = ground arith

of_hex-hex_from :
    (rounds hash : ℕ) (out : List ℕ)
    → hash < 16 ^ rounds
    → of_hex 0 (hex_from rounds hash out) ≡ of_hex hash out
unfolding hex_from of_hex
of_hex-hex_from zero hash out lt = ap (λ h. of_hex h out) (omega arith)
of_hex-hex_from (suc rounds) hash out lt =
    of_hex-hex_from rounds (hash / 16) (digit (hash % 16) ∷ out)
      (omega (arith, lt, pow-suc 16 rounds))
    ∙ ap (λ h. of_hex h out) (omega (arith, of_digit-digit (hash % 16) (omega arith)))

length-hex_from :
    (rounds hash : ℕ) (out : List ℕ) → length (hex_from rounds hash out) ≡ rounds + length out
unfolding hex_from
length-hex_from zero hash out = omega arith
length-hex_from (suc rounds) hash out =
    omega (arith, length-hex_from rounds (hash / 16) (digit (hash % 16) ∷ out))

-- A printed hash has sixteen characters, and read back as a hexadecimal number it is the hash, if
-- the hash has 64 bits.
pub of_hex-hash_to_string :
    (hash : ℕ)
    → hash < 2 ^ 64
    → (length (hash_to_string hash) ≡ 16) × (of_hex 0 (hash_to_string hash) ≡ hash)
unfolding hash_to_string of_hex
of_hex-hash_to_string hash lt = (length-hex_from 16 hash [], of_hex-hex_from 16 hash [] lt)
