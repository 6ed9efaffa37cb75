-- ===== src/Publish/Generated.antt =====
-- publisher.go: the generated ids of snapshots, publish records and revisions.
use Prim.Native.String.{◌++◌ as concat}
use ai_model_gateway.Base.{ℕ, zero, suc, ◌%◌, String}
use ai_model_gateway.Publish.{Environment}

-- the character at a place, as a text
unfoldable pub char_at : String → ℕ → String
char_at String.[] n = String.[]
char_at (String.◌∷◌ c s) zero = String.◌∷◌ c String.[]
char_at (String.◌∷◌ c s) (suc n) = char_at s n

unfoldable pub suffix_char : ℕ → String
unfolding char_at
suffix_char n = char_at "abcdefghijklmnopqrstuvwxyz0123456789" (n % 36)

module _ {W Config Fields : Type 0} (env : Environment W Config Fields) where
  -- `randomSuffix`, `n` characters of it
  unfoldable pub random_suffix : ℕ → W → String × W
  random_suffix zero w = (String.[], w)
  random_suffix (suc n) w =
      let (t, w1) = env.now w in
      let (rest, w2) = random_suffix n w1 in (concat (suffix_char (env.nanosecond t)) rest, w2)

  -- `generateSnapshotID`, `generatePublishID`, and the revision id of `UpdateConfig`
  unfoldable pub generate_id : String → W → String × W
  generate_id prefix w =
      let (t, w1) = env.now w in
      let (suffix, w2) = random_suffix 6 w1 in
      (concat prefix (concat (env.format_stamp t) (concat "_" suffix)), w2)
