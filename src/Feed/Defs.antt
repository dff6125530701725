-- ===== src/Feed/Defs.antt =====
-- `decodeBody`
use egress_router.Common.{
  Bool, ◌&&◌, not, Option, none, some, List, [], ◌∷◌, ◌≡◌, refl, Text, lit, text_beq, ◌==◌, text_eq,
  if◌then◌else◌, has_prefix, contains_text, split, join, fields, trim_space, space_width,
  last_space_width,
}
use egress_router.Base64.{decode_base64, decode_string}

-- line != "" && !strings.HasPrefix(line, "#")
abbrev pub is_entry : Text → Bool
is_entry line = not (line == []) && not (has_prefix line (lit "#"))

-- The loop over the lines of a text.
unfoldable pub entries : List Text → List Text
entries [] = []
entries (line ∷ lines) =
    let trimmed = trim_space line in
    let rest = entries lines in if is_entry trimmed then trimmed ∷ rest else rest

abbrev pub entries_of : Text → List Text
entries_of text = entries (split 10 text)

-- The text without its white space.
abbrev pub compact : Text → Text
compact text = join [] (fields text)

abbrev pub entries_of_decoded : Option Text → List Text
entries_of_decoded none = []
entries_of_decoded (some decoded) = entries_of decoded

unfoldable pub decode_body : Text → List Text
decode_body body =
    let found = entries_of body in
    let text = join (lit "\n") found in
    if contains_text text (lit "://")
    then found
    else entries_of_decoded (decode_base64 (compact text))

run : Text → List Text
unfolding decode_body entries split join trim_space fields contains_text decode_base64 decode_string
    lit text_beq space_width last_space_width has_prefix
run = decode_body

decode_body_tests :
    (run (lit "# feed\r\n vless://a \n\nss://b") ≡ lit "vless://a" ∷ lit "ss://b" ∷ [])
    × (run (lit "dmxlc3M6\nLy9h") ≡ lit "vless://a" ∷ [])
    × (run (lit "not base64") ≡ [])
unfolding run
decode_body_tests = (refl, refl, refl)
