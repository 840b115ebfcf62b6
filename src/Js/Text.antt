-- ===== src/Js/Text.antt =====
-- Texts as the language trims them.
use Prim.Native.Char.{code}
use agentic_attribution.Prelude.{String, Bool, true, false, ◌&&◌, if◌then◌else◌, ◌==◌, ◌≡◌, refl}
use agentic_attribution.Js.Decimal.{is_space}

abbrev pub is_empty : String → Bool
is_empty String.[] = true
is_empty (String.◌∷◌ c s) = false

trim_start : String → String
unfolding is_space
trim_start String.[] = String.[]
trim_start (String.◌∷◌ c s) = if is_space (code c) then trim_start s else String.◌∷◌ c s

trim_end : String → String
unfolding is_space
trim_end String.[] = String.[]
trim_end (String.◌∷◌ c s) =
    let rest = trim_end s in
    if is_empty rest && is_space (code c) then String.[] else String.◌∷◌ c rest

-- `text.trim()`
unfoldable pub trim : String → String
unfolding trim_start trim_end
trim s = trim_end (trim_start s)

-- `text.replace(/\/+$/, '')`
unfoldable pub strip_trailing_slashes : String → String
strip_trailing_slashes String.[] = String.[]
strip_trailing_slashes (String.◌∷◌ c s) =
    let rest = strip_trailing_slashes s in
    if is_empty rest && code c == b'/' then String.[] else String.◌∷◌ c rest

trims : trim " \t a b \n" ≡ "a b"
unfolding trim
trims = refl

strips : strip_trailing_slashes "http://h:1//" ≡ "http://h:1"
unfolding strip_trailing_slashes
strips = refl
