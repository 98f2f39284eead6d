-- ===== src/Docs/ContentType.antt =====
-- The content type of a file of the documentation, by the end of its path.
use april_homework.Common.{
  ℕ, ◌≡◌, refl, ap, ◌∙◌, [], ◌∷◌, ◌++◌, Text, none, true, false, ◌||◌, ◌==◌, arith, if◌then◌else◌,
}
use april_homework.Strings.{text_eq}
use april_homework.Docs.{is_stop, path_ext, content_types, lookup_text, content_type_of}

is_stop-append :
    (dir : Text) (c : ℕ) (s : Text)
    → (c == b'.' || c == b'/') ≡ true
    → is_stop (dir ++ c ∷ s) ≡ true
is_stop-append [] c s h = ground arith
is_stop-append (d ∷ dir) c s h = ground (arith, is_stop-append dir c s h)

path_ext-append :
    (dir : Text) (c : ℕ) (s : Text)
    → (c == b'.' || c == b'/') ≡ true
    → path_ext (dir ++ c ∷ s) ≡ path_ext (c ∷ s)
unfolding path_ext
path_ext-append [] c s h = refl
path_ext-append (d ∷ dir) c s h = rw (is_stop-append dir c s h) (path_ext-append dir c s h)

path_ext-last :
    (c : ℕ) (s : Text) → is_stop s ≡ false → path_ext (c ∷ s) ≡ (if c == b'.' then c ∷ s else [])
unfolding path_ext
path_ext-last c s h = rw h refl

-- For every directory and every name without a dot or a slash: a file with this name for its
-- extension gets the content type that the table has for it, and a file that is just called so gets
-- none.
pub content_type_of-extension :
    (dir name : Text)
    → is_stop name ≡ false
    → (content_type_of (dir ++ b'.' ∷ name) ≡ lookup_text (b'.' ∷ name) content_types)
      × (content_type_of (dir ++ b'/' ∷ name) ≡ none)
unfolding content_type_of path_ext content_types text_eq
content_type_of-extension dir name h = (
  ap (λ e. lookup_text e content_types)
      (path_ext-append dir b'.' name refl ∙ path_ext-last b'.' name h),
  ap (λ e. lookup_text e content_types)
      (path_ext-append dir b'/' name refl ∙ path_ext-last b'/' name h),
)
