-- ===== src/Msgmod.antt =====
-- Changes of a message (src/msgmod.c). What libmilter is asked for is collected, with whether it succeeds as
-- a parameter; `none` is a NULL text. `atol` and `strcasecmp` of the C library are parameters.
pub mod Asked
mod Tests
use mopher.Prelude.{ℕ, String, Bool, true, false, Option, none, some, List, [], ◌∷◌, if◌then◌else◌}
use mopher.Prelude.Int.{ℤ, pos}
use mopher.Exec.{Exec, Result, ok, fail, null_pointer, pure, raise, deref, ◌>>=◌}
use mopher.Action.{ActionType, acl_none, acl_error}
use mopher.Var.{Var, Vars, var, v_data, as_string}
use mopher.Var.Cast.{VarType, same_type, v_type, var_cast_copy}
use mopher.Vtable.{vtable_get}
use mopher.Exp.{Exp}
use mopher.Exp.Symbols.{Registry}
use mopher.Exp.Eval.{exp_eval}

pub data Modification : Type 0 where
  mo_add mo_ins mo_chg mo_del : Modification

pub data Target : Type 0 where
  mt_from mt_rcpt mt_header mt_body : Target

-- The functions of libmilter that are called, with their arguments
pub data Change : Type 0 where
  addheader : Option String → Option String → Change
  chgheader : Option String → ℤ → Option String → Change
  insheader : ℤ → Option String → Option String → Change
  chgfrom : Option String → Option String → Change
  addrcpt : Option String → Change
  addrcpt_par : Option String → Option String → Change
  delrcpt : Option String → Change
  replacebody : String → Change

abbrev pub msgmod_targets : List (String × Target)
msgmod_targets =
    ("from", mt_from) ∷ ("rcpt", mt_rcpt) ∷ ("header", mt_header) ∷ ("body", mt_body) ∷ []

module _ (strcasecmp : String → String → Bool) where
  -- The loop over the table, where `strcasecmp` is true for 0; `none` is an error of the parser.
  unfoldable pub find_target : List (String × Target) → String → Option Target
  find_target [] id = none
  find_target ((name, target) ∷ targets) id =
      if strcasecmp name id then some target else find_target targets id

  unfoldable pub msgmod_get_target : String → Option Target
  unfolding find_target
  msgmod_get_target id = find_target msgmod_targets id

pub record ModState : Type 0 where
  pub mailspec : Vars
  pub asked : List Change

-- The data of the arguments, and whether the callback returns 0
abbrev pub Callback : Type 0
Callback = List (Option String) → Exec ModState Bool

module _ (smfi : Change → Bool) (atol : String → ℤ) where
  unfoldable pub ask : Change → Exec ModState Bool
  ask c s = (ok (smfi c), record s { asked = c ∷ s.asked })

  abbrev index_of : Option String → Exec ModState ℤ
  index_of none = raise null_pointer
  index_of (some text) = pure (atol text)

  unfoldable pub msgmod_add_header : Callback
  unfolding ask
  msgmod_add_header (headerf ∷ headerv ∷ []) = ask (addheader headerf headerv)
  msgmod_add_header args = pure false

  unfoldable pub msgmod_change_header : Callback
  unfolding ask
  msgmod_change_header (headerf ∷ headerv ∷ []) = ask (chgheader headerf (pos 1) headerv)
  msgmod_change_header (headerf ∷ headerv ∷ index ∷ []) = do
    n ← index_of index
    ask (chgheader headerf n headerv)
  msgmod_change_header args = pure false

  unfoldable pub msgmod_delete_header : Callback
  unfolding ask
  msgmod_delete_header (headerf ∷ []) = ask (chgheader headerf (pos 1) none)
  msgmod_delete_header args = pure false

  unfoldable pub msgmod_insert_header : Callback
  unfolding ask
  msgmod_insert_header (headerf ∷ headerv ∷ []) = ask (insheader (pos 0) headerf headerv)
  msgmod_insert_header (headerf ∷ headerv ∷ index ∷ []) = do
    n ← index_of index
    ask (insheader n headerf headerv)
  msgmod_insert_header args = pure false

  unfoldable pub msgmod_change_from : Callback
  unfolding ask
  msgmod_change_from (from ∷ []) = ask (chgfrom from none)
  msgmod_change_from (from ∷ esmtp_args ∷ []) = ask (chgfrom from esmtp_args)
  msgmod_change_from args = pure false

  unfoldable pub msgmod_add_rcpt : Callback
  unfolding ask
  msgmod_add_rcpt (rcpt ∷ []) = ask (addrcpt rcpt)
  msgmod_add_rcpt (rcpt ∷ esmtp_args ∷ []) = ask (addrcpt_par rcpt esmtp_args)
  msgmod_add_rcpt args = pure false

  unfoldable pub msgmod_delete_rcpt : Callback
  unfolding ask
  msgmod_delete_rcpt (rcpt ∷ []) = ask (delrcpt rcpt)
  msgmod_delete_rcpt args = pure false

  -- `strlen` reads the body.
  unfoldable pub msgmod_change_body : Callback
  unfolding ask
  msgmod_change_body (none ∷ []) = raise null_pointer
  msgmod_change_body (some body ∷ []) = ask (replacebody body)
  msgmod_change_body args = pure false

  unfoldable pub msgmod_get_callback : Modification → Target → Option Callback
  unfolding msgmod_add_header msgmod_change_header msgmod_delete_header msgmod_insert_header
      msgmod_change_from msgmod_add_rcpt msgmod_delete_rcpt msgmod_change_body
  msgmod_get_callback mo_add mt_rcpt = some msgmod_add_rcpt
  msgmod_get_callback mo_add mt_header = some msgmod_add_header
  msgmod_get_callback mo_ins mt_header = some msgmod_insert_header
  msgmod_get_callback mo_chg mt_from = some msgmod_change_from
  msgmod_get_callback mo_chg mt_header = some msgmod_change_header
  msgmod_get_callback mo_chg mt_body = some msgmod_change_body
  msgmod_get_callback mo_del mt_rcpt = some msgmod_delete_rcpt
  msgmod_get_callback mo_del mt_header = some msgmod_delete_header
  msgmod_get_callback modification target = none

module _ (r : Registry) where
  -- An argument as a text; `none` where the cast fails
  unfoldable pub text_of : Var → Option (Option String)
  unfolding var_cast_copy
  text_of v =
      if same_type (v_type (v_data v)) VarType.vt_string
      then some (as_string (v_data v))
      else elim (var_cast_copy r.operators.casts VarType.vt_string v) [
        | none ↦ none
        | some copy ↦ some (as_string (v_data copy))
      ]

  -- The loop over the arguments: `none` is the jump to `error`.
  unfoldable pub eval_args : List Exp → Exec Vars (Option (List (Option String)))
  unfolding exp_eval text_of
  eval_args [] = pure (some [])
  eval_args (e ∷ es) =
      let rest = eval_args es in
      exp_eval r e >>= λ v. elim v [
        | none ↦ pure none
        | some v ↦ elim (text_of v) [
          | none ↦ pure none
          | some text ↦
              rest >>= λ texts. elim texts [ none ↦ pure none | some ts ↦ pure (some (text ∷ ts)) ]
        ]
      ]

  abbrev pub on_mailspec : {A : Type 0} → Exec Vars A → Exec ModState A
  on_mailspec m s = let (x, vs) = m s.mailspec in (x, record s { mailspec = vs })

  abbrev pub answer_of : Bool → ActionType
  answer_of true = acl_none
  answer_of false = acl_error

  abbrev pub run_callback : Callback → Option (List (Option String)) → Exec ModState ActionType
  run_callback mm_callback none = pure acl_error
  run_callback mm_callback (some texts) = do done ← mm_callback texts; pure (answer_of done)

  -- Without a context the loop that frees the arguments reads them through a null pointer.
  unfoldable pub msgmod : Callback → List Exp → Exec ModState ActionType
  unfolding eval_args vtable_get
  msgmod mm_callback mm_args s = elim (vtable_get s.mailspec "milter_ctx") [
    | none ↦ (fail null_pointer, s)
    | some ctx ↦ (on_mailspec (eval_args mm_args) >>= λ texts. run_callback mm_callback texts) s
  ]
