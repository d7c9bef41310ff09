-- ===== src/Tokens/Metadata.antt =====
-- internal/auth/handler.go: `trimTokenMetadata`, which cuts at a number of bytes.
use brevyn_cloud.Base.{
  ℕ, zero, suc, ◌+◌, ◌/◌, ◌%◌, ◌≤◌, ◌≡◌, List, [], ◌∷◌, ◌++◌, Text, arith, trim_space, ltb,
  if◌then◌else◌, length, inl, inr, Bool-cases,
}

-- The UTF-8 bytes of a rune
pub utf8_rune : ℕ → List ℕ
utf8_rune c =
    if ltb c 0x80
    then c ∷ []
    else if ltb c 0x800
    then (0xc0 + c / 64) ∷ (0x80 + c % 64) ∷ []
    else if ltb c 0x10000
    then (0xe0 + c / 4096) ∷ (0x80 + c / 64 % 64) ∷ (0x80 + c % 64) ∷ []
    else (0xf0 + c / 262144) ∷ (0x80 + c / 4096 % 64) ∷ (0x80 + c / 64 % 64) ∷ (0x80 + c % 64) ∷ []

pub utf8 : Text → List ℕ
utf8 [] = []
utf8 (c ∷ s) = utf8_rune c ++ utf8 s

-- `value[:n]`
pub take : ℕ → List ℕ → List ℕ
take zero xs = []
take (suc n) [] = []
take (suc n) (x ∷ xs) = x ∷ take n xs

-- `trimTokenMetadata`
pub trim_token_metadata : Text → ℕ → List ℕ
unfolding take utf8 utf8_rune
trim_token_metadata value limit =
    let bytes = utf8 (trim_space value) in
    if ltb limit (length bytes) then take limit bytes else bytes

length-take : (n : ℕ) (xs : List ℕ) → length (take n xs) ≤ n
unfolding take
length-take zero xs = omega arith
length-take (suc n) [] = omega arith
length-take (suc n) (x ∷ xs) = omega (arith, length-take n xs)

-- The stored metadata has at most as many bytes as the limit says, and a value that is within the
-- limit is stored whole.
pub trim_token_metadata_bounds :
    (value : Text) (limit : ℕ)
    → (length (trim_token_metadata value limit) ≤ limit)
      × (length (utf8 (trim_space value)) ≤ limit
          → trim_token_metadata value limit ≡ utf8 (trim_space value))
unfolding trim_token_metadata
trim_token_metadata_bounds value limit =
    let bytes = utf8 (trim_space value) in
    elim (Bool-cases (ltb limit (length bytes))) [
      | inl long ↦
          (rw long (length-take limit bytes), λ short. absurd (ground (arith, long, short)))
      | inr short ↦ (rw short (ground (arith, short)), λ _. rw short)
    ]
