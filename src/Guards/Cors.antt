-- ===== src/Guards/Cors.antt =====
-- The CORS guard (src/server/middleware/cors.ts) and the setting it reads (src/server/config/index.ts).
-- A text is the list of its character codes.
pub mod Origins
use lumigift_lumigift.Common.{
  ℕ, Bool, true, false, not, ◌&&◌, ◌||◌, List, [], ◌∷◌, ◌++◌, map, Option, none, some, any, drop,
  if◌then◌else◌,
}
use lumigift_lumigift.Phone.{starts_with}
use lumigift_lumigift.Guards.Csrf.{Text, same_text, split_on, trim_start}

abbrev reversed : Text → Text → Text
reversed done [] = done
reversed done (c ∷ s) = reversed (c ∷ done) s

abbrev trim : Text → Text
trim s = reversed [] (trim_start (reversed [] (trim_start s)))

-- `env.CORS_ALLOWED_ORIGINS.split(",").map((origin) => origin.trim())`
unfoldable pub allowed_origins : Text → List Text
allowed_origins setting = map trim (split_on b',' setting)

-- `endsWith`
unfoldable pub ends_with : Text → Text → Bool
ends_with [] pattern = same_text [] pattern
ends_with (c ∷ s) pattern = same_text (c ∷ s) pattern || ends_with s pattern

abbrev pub wildcard : Text
wildcard = b'*' ∷ b'.' ∷ []

-- One entry of the list.
abbrev pub admits : Text → Text → Bool
admits origin allowed =
    same_text allowed origin || (starts_with allowed wildcard && ends_with origin (drop 2 allowed))

-- `isOriginAllowed`
unfoldable pub is_origin_allowed : List Text → Option Text → Bool
is_origin_allowed entries none = false
is_origin_allowed entries (some []) = false
is_origin_allowed entries (some (c ∷ o)) = any (admits (c ∷ o)) entries

-- An answer, with its `Access-Control-Allow-Origin`; with it goes `Access-Control-Allow-Credentials`.
pub record CorsReply : Type 0 where
  pub status : ℕ
  pub allow_origin : Option Text

abbrev pub refusal : CorsReply
refusal = record { status = 403; allow_origin = none }

abbrev pub with_origin : {W : Type 0} → Option Text → W × ℕ → W × CorsReply
with_origin origin (w, status) = (w, record { status = status; allow_origin = origin })

-- `withCors`, for a method that is OPTIONS or not.
unfoldable pub with_cors :
    {W : Type 0} → List Text → Bool → Option Text → (W → W × ℕ) → W → W × CorsReply
with_cors entries is_options origin handler w =
    if not (is_origin_allowed entries origin)
    then (w, refusal)
    else if is_options
    then (w, record { status = 204; allow_origin = origin })
    else with_origin origin (handler w)
