-- ===== src/Base/Hash.antt =====
-- Go's `hash/fnv` on the bytes of a string.
use Prim.Native.Nat.{bit_xor}
use token_route.Base.{ℕ, ◌+◌, ◌*◌, ◌/◌, ◌%◌, ◌^◌, List, [], ◌∷◌, ◌++◌, ltb, if◌then◌else◌}
use token_route.Base.Text.{Text}

-- UTF-8 of one code point.
unfoldable pub utf8_char : ℕ → List ℕ
utf8_char c =
    if ltb c 0x80
    then c ∷ []
    else (if ltb c 0x800
        then (0xc0 + c / 64) ∷ (0x80 + c % 64) ∷ []
        else (if ltb c 0x10000
            then (0xe0 + c / 4096) ∷ (0x80 + c / 64 % 64) ∷ (0x80 + c % 64) ∷ []
            else (0xf0 + c / 262144)
              ∷ (0x80 + c / 4096 % 64)
              ∷ (0x80 + c / 64 % 64)
              ∷ (0x80 + c % 64)
              ∷ []))

-- The bytes of a string.
unfoldable pub utf8 : Text → List ℕ
unfolding utf8_char
utf8 [] = []
utf8 (c ∷ s) = utf8_char c ++ utf8 s

-- FNV-1a with the parameters of a width: each byte is xored in, and the result multiplied.
unfoldable pub fnv1a : (prime modulus : ℕ) → List ℕ → ℕ → ℕ
fnv1a prime modulus [] h = h
fnv1a prime modulus (b ∷ bytes) h = fnv1a prime modulus bytes (bit_xor h b * prime % modulus)

-- `fnv.New32a()` and `fnv.New64a()`
unfoldable pub fnv32a : Text → ℕ
unfolding fnv1a utf8
fnv32a s = fnv1a 16777619 (2 ^ 32) (utf8 s) 2166136261

unfoldable pub fnv64a : Text → ℕ
unfolding fnv1a utf8
fnv64a s = fnv1a 1099511628211 (2 ^ 64) (utf8 s) 14695981039346656037
