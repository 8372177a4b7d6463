-- ===== src/Platform/Auth.antt =====
-- internal/platform/auth/apikey.go: API keys and webhook secrets. SHA-256 is the parameter `sha_256`.
use padma.Base.{ℕ, suc, ◌+◌, ◌-◌, ◌/◌, ◌%◌, Bool, [], ◌∷◌, Text, ◌==◌, ltb, if◌then◌else◌}
use padma.Errors.{ok}
use padma.Database.{World, Action}

hex_digit : ℕ → ℕ
hex_digit d = if ltb d 10 then b'0' + d else b'a' + (d - 10)

-- hex.EncodeToString
unfoldable pub encode_to_string : Text → Text
unfolding hex_digit
encode_to_string [] = []
encode_to_string (b ∷ bs) = hex_digit (b / 16) ∷ hex_digit (b % 16) ∷ encode_to_string bs

-- the text of the next draw of crypto/rand
abbrev pub drawn_hex : World → Text
drawn_hex w = encode_to_string (w.random_bytes w.drawn)

-- randHex(32): every draw of the program is of 32 bytes
unfoldable pub rand_hex : Action Text
rand_hex w = (ok (drawn_hex w), record w { drawn = suc w.drawn })

-- NewWebhookSecret
unfoldable pub new_webhook_secret : Action Text
unfolding rand_hex
new_webhook_secret = rand_hex

module _ (sha_256 : Text → Text) where
  -- HashAPIKey
  unfoldable pub hash_api_key : Text → Text
  hash_api_key plaintext = encode_to_string (sha_256 plaintext)

  -- NewAPIKey: the plaintext and its hash
  unfoldable pub new_api_key : Action (Text × Text)
  unfolding rand_hex
  new_api_key w = (ok (drawn_hex w, hash_api_key (drawn_hex w)), record w { drawn = suc w.drawn })

  -- VerifyAPIKey: subtle.ConstantTimeCompare says 1 of equal byte sequences and 0 of others
  unfoldable pub verify_api_key : Text → Text → Bool
  verify_api_key plaintext hash = hash_api_key plaintext == hash
