-- ===== src/Uri.antt =====
-- `join` of ingest_bench/uri.py, on texts; `uri_join` of Engines/Spark.antt is the same on characters.
pub mod Places
use Prim.Native.Char.{Char, code}
use Prim.Native.String.{String, ◌++◌ as ◌text_append◌}
use lakehouse_ingest_bench.Prelude.{List, [], ◌∷◌, ◌==◌, if◌then◌else◌}

-- part.strip("/") and uri.rstrip("/")
abbrev pub left_trimmed : String → String
left_trimmed String.[] = String.[]
left_trimmed (String.◌∷◌ c text) = if code c == b'/' then left_trimmed text else String.◌∷◌ c text

abbrev pub unless_slash : Char → String → String
unless_slash c String.[] = if code c == b'/' then String.[] else String.◌∷◌ c String.[]
unless_slash c (String.◌∷◌ d text) = String.◌∷◌ c (String.◌∷◌ d text)

abbrev pub right_trimmed : String → String
right_trimmed String.[] = String.[]
right_trimmed (String.◌∷◌ c text) = unless_slash c (right_trimmed text)

abbrev pub with_parts : String → List String → String
with_parts uri [] = uri
with_parts uri (part ∷ parts) =
    with_parts ((uri text_append "/") text_append right_trimmed (left_trimmed part)) parts

unfoldable pub join : String → List String → String
join uri parts = with_parts (right_trimmed uri) parts
