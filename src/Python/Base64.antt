-- ===== src/Python/Base64.antt =====
-- `base64.b64encode` of Python's standard library, as hm6/consumer/dlq.py uses it for bytes.
use Prim.Native.Char.{Char}
use service_oriented_archite.Base.{
  ℕ, zero, suc, ◌+◌, ◌*◌, ◌/◌, ◌%◌, String, ◌≡◌, refl, List, [], ◌∷◌,
}

-- A byte is a number below 256.
abbrev pub Bytes : Type 0
Bytes = List ℕ

abbrev alphabet : String
alphabet = "ABCDEFGHIJKLMNOPQRSTUVWXYZabcdefghijklmnopqrstuvwxyz0123456789+/"

unfoldable char_from : String → ℕ → Char
char_from String.[] i = "="
char_from (String.◌∷◌ c s) zero = c
char_from (String.◌∷◌ c s) (suc i) = char_from s i

-- The sextet `i` of the 24 bits `n`, from the right.
unfoldable sextet : ℕ → Char
unfolding char_from
sextet n = char_from alphabet (n % 64)

unfoldable pub b64encode : Bytes → String
unfolding sextet
b64encode [] = ""
b64encode (a ∷ []) = let n : ℕ = a * 16 in String.◌∷◌ (sextet (n / 64)) (String.◌∷◌ (sextet n) "==")
b64encode (a ∷ b ∷ []) =
    let n : ℕ = (a * 256 + b) * 4 in
    String.◌∷◌ (sextet (n / 4096)) (String.◌∷◌ (sextet (n / 64)) (String.◌∷◌ (sextet n) "="))
b64encode (a ∷ b ∷ c ∷ rest) =
    let n : ℕ = (a * 256 + b) * 256 + c in
    String.◌∷◌ (sextet (n / 262144)) (
      String.◌∷◌ (sextet (n / 4096))
        (String.◌∷◌ (sextet (n / 64)) (String.◌∷◌ (sextet n) (b64encode rest))))

b64encode_texts :
    (b64encode (77 ∷ 97 ∷ 110 ∷ []) ≡ "TWFu")
    × (b64encode (77 ∷ 97 ∷ []) ≡ "TWE=")
    × (b64encode (255 ∷ []) ≡ "/w==")
unfolding b64encode
b64encode_texts = (refl, refl, refl)
