-- ===== src/Msgmod/Tests.antt =====
-- A rule that changes the subject, with a libmilter that accepts everything.
use mopher.Prelude.{String, Bool, ◌≡◌, refl, true, none, some, List, [], ◌∷◌, str_eq}
use mopher.Prelude.Int.{ℤ, pos}
use mopher.Exec.{ok, fail, null_pointer}
use mopher.Action.{acl_none, acl_error}
use mopher.Var.{nil, cons, var, pointer}
use mopher.Exp.{Exp, constant}
use mopher.Exp.Sample.{registry, word}
use mopher.Msgmod.{
  mo_chg, mo_del, mt_header, mt_body, Change, chgheader, Callback, ModState, msgmod_get_target,
  msgmod_get_callback, msgmod_change_header, msgmod,
}
use mopher.Msgmod.Asked.{Answered, msgmod-Answered}

abbrev accepted : Change → Bool
accepted c = true

abbrev atol : String → ℤ
atol text = pos 0

abbrev connected : ModState
connected = record { mailspec = cons (var (some "milter_ctx") (pointer (some 1))) nil; asked = [] }

abbrev subject : List Exp
subject = constant (word "Subject") ∷ constant (word "spam") ∷ []

header_target : msgmod_get_target str_eq "header" ≡ some mt_header
unfolding msgmod_get_target
header_target = refl

no_callback : msgmod_get_callback accepted atol mo_del mt_body ≡ none
unfolding msgmod_get_callback
no_callback = refl

abbrev change_header : Callback
change_header = msgmod_change_header accepted atol

marked : msgmod registry change_header subject connected ≡ (
  ok acl_none,
  record connected { asked = chgheader (some "Subject") (pos 1) (some "spam") ∷ [] },
)
unfolding msgmod msgmod_change_header
marked = refl

one_argument :
    (msgmod registry change_header (constant (word "Subject") ∷ []) connected).0 ≡ ok acl_error
unfolding msgmod msgmod_change_header
one_argument = refl

no_context :
    (msgmod registry change_header subject (record { mailspec = nil; asked = [] })).0
    ≡ fail null_pointer
unfolding msgmod
no_context = refl

chosen : msgmod_get_callback accepted atol mo_chg mt_header ≡ some change_header
unfolding msgmod_get_callback
chosen = refl

msgmod-Answered_example :
    Answered accepted atol mo_chg mt_header [] (msgmod registry change_header subject connected)
msgmod-Answered_example =
    msgmod-Answered accepted atol registry mo_chg mt_header change_header subject connected chosen
