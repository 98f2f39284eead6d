-- ===== src/Docs.antt =====
-- docs/docs.go: the documentation under /api/docs, a file server that sets the content type by the
-- extension of the path. The file server of net/http is an argument.
pub mod ContentType
use april_homework.Common.{
  List, [], ◌∷◌, Text, codes, Option, none, some, Bool, true, false, ◌||◌, ◌==◌, if◌then◌else◌,
}
use april_homework.Strings.{text_eq}

abbrev pub is_stop : Text → Bool
is_stop [] = false
is_stop (c ∷ s) = c == b'.' || c == b'/' || is_stop s

-- path.Ext: from the last dot of the last element of the path.
unfoldable pub path_ext : Text → Text
path_ext [] = []
path_ext (c ∷ s) =
    let rest = path_ext s in if is_stop s then rest else if c == b'.' then c ∷ s else []

unfoldable pub content_types : List (Text × Text)
content_types =
    (codes ".js", codes "application/javascript")
    ∷ (codes ".css", codes "text/css")
    ∷ (codes ".html", codes "text/html")
    ∷ (codes ".yaml", codes "text/yaml")
    ∷ (codes ".yml", codes "text/yaml")
    ∷ (codes ".json", codes "application/json")
    ∷ []

-- A read of a map.
abbrev pub lookup_text : Text → List (Text × Text) → Option Text
lookup_text k [] = none
lookup_text k ((j, v) ∷ m) = if text_eq j k then some v else lookup_text k m

-- The content type that fileServerWithContentType sets, if it sets one.
unfoldable pub content_type_of : Text → Option Text
unfolding path_ext content_types
content_type_of path = lookup_text (path_ext path) content_types

-- fileServerWithContentType: the file server sees the content type that was set.
unfoldable pub serve_file : {Q R : Type 0} → (Q → Text) → (Option Text → Q → R) → Q → R
unfolding content_type_of
serve_file path_of file_server r = file_server (content_type_of (path_of r)) r
