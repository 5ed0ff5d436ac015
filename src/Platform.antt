-- ===== src/Platform.antt =====
-- What the source takes from the standard library and its platform: SHA-256, base64 and the case
-- tables of Unicode. None of it is code of the repository, so it is an argument.
use headnet.Base.{ℕ, List, Option, map}
use headnet.Text.{Text, hex}

pub record Platform : Type 0 where
  -- sha256.Sum256 of the bytes of a text
  pub sha256 : Text → List ℕ
  -- base64.StdEncoding.DecodeString
  pub decode_base64 : Text → Option (List ℕ)
  -- base64.RawURLEncoding.Strict().DecodeString
  pub decode_raw_url : Text → Option (List ℕ)
  -- unicode.ToLower
  pub to_lower : ℕ → ℕ

-- auth.HashToken
unfoldable pub hash_token : Platform → Text → Text
hash_token p token = hex (p.sha256 token)

-- strings.ToLower
abbrev pub lower : Platform → Text → Text
lower p = map p.to_lower
