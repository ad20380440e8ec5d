-- ===== src/Go/Text.antt =====
-- What the services use of Go's `+`, `fmt.Sprintf` with `%s` and `strings` on whole texts.
use tiny_aws.Prelude.{String, Bool, true, false, Option, none, some, List, [], ◌∷◌}
use tiny_aws.Go.Fmt.{prefixed, strip_prefix}

-- texts one after another
unfoldable pub concat : List String → String
concat [] = ""
concat (s ∷ texts) = prefixed s (concat texts)

abbrev pub or_whole : String → Option String → String
or_whole whole none = whole
or_whole whole (some rest) = rest

-- `strings.TrimPrefix(s, p)`
unfoldable pub trim_prefix : String → String → String
trim_prefix p s = or_whole s (strip_prefix p s)

-- `strings.HasPrefix(s, p)`
abbrev pub has_prefix : String → String → Bool
has_prefix p s = elim (strip_prefix p s) [ none ↦ false | some rest ↦ true ]
