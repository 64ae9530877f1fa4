-- ===== src/Util/Tests.antt =====
-- Quoted texts, texts put together, and names of files.
use mopher.Prelude.{◌≡◌, refl, none, some, [], ◌∷◌}
use mopher.Exec.{ok}
use mopher.Util.{util_quote, util_concat, util_stripped_filename}
use mopher.Util.Quote.{IsQuoted, util_quote-IsQuoted}

util_quote-IsQuoted_example : IsQuoted 8 "table" "'" "'" (util_quote 8 "table" "'")
util_quote-IsQuoted_example = util_quote-IsQuoted 8 "table" "'" ""

quoted : util_quote 8 "table" "'" ≡ ok (some "'table'")
unfolding util_quote
quoted = refl

no_room : util_quote 7 "table" "'" ≡ ok none
unfolding util_quote
no_room = refl

refused : util_quote 20 "x' or '" "'" ≡ ok none
unfolding util_quote
refused = refl

joined : util_concat 8 ("ab" ∷ "cde" ∷ []) ≡ some "abcde"
unfolding util_concat
joined = refl

exhausted : util_concat 5 ("ab" ∷ "cde" ∷ []) ≡ none
unfolding util_concat
exhausted = refl

module_name : util_stripped_filename 20 "/usr/lib/mopher/spf.so" ≡ some "spf"
unfolding util_stripped_filename
module_name = refl
