-- ===== src/Msgmod/Asked.antt =====
-- What libmilter was asked for when the handler answers.
use mopher.Prelude.{
  Option-cases, sym, String, Bool, true, false, ◌≡◌, refl, ◌⊎◌, inl, inr, Option, none, some, List,
  [], ◌∷◌,
}
use mopher.Prelude.Int.{ℤ, pos}
use mopher.Exec.{Result, ok, fail, pure, continue}
use mopher.Var.{Vars}
use mopher.Action.{ActionType, acl_none, acl_error}
use mopher.Vtable.{vtable_get}
use mopher.Exp.{Exp}
use mopher.Exp.Symbols.{Registry}
use mopher.Msgmod.{
  Modification, mo_add, mo_ins, mo_chg, mo_del, Target, mt_from, mt_rcpt, mt_header, mt_body,
  Change, addheader, chgheader, insheader, chgfrom, addrcpt, addrcpt_par, delrcpt, replacebody,
  ModState, Callback, ask, msgmod_add_header, msgmod_change_header, msgmod_delete_header,
  msgmod_insert_header, msgmod_change_from, msgmod_add_rcpt, msgmod_delete_rcpt, msgmod_change_body,
  msgmod_get_callback, eval_args, answer_of, run_callback, msgmod,
}

-- The changes that a rule of the access list means
pub data Means : Modification → Target → Change → Type 0 where
  new_header : (f v : Option String) → Means mo_add mt_header (addheader f v)
  add_rcpt : (rcpt : Option String) → Means mo_add mt_rcpt (addrcpt rcpt)
  add_rcpt_par : (rcpt par : Option String) → Means mo_add mt_rcpt (addrcpt_par rcpt par)
  insert_header : (i : ℤ) (f v : Option String) → Means mo_ins mt_header (insheader i f v)
  change_from : (from par : Option String) → Means mo_chg mt_from (chgfrom from par)
  change_header :
      (f : Option String) (i : ℤ) (v : Option String) → Means mo_chg mt_header (chgheader f i v)
  change_body : (body : String) → Means mo_chg mt_body (replacebody body)
  delete_rcpt : (rcpt : Option String) → Means mo_del mt_rcpt (delrcpt rcpt)
  delete_header : (f : Option String) (i : ℤ) → Means mo_del mt_header (chgheader f i none)

module _ (smfi : Change → Bool) (atol : String → ℤ) (modification : Modification)
    (target : Target) where
  -- One more change was asked for, and libmilter accepted it or not.
  abbrev pub AskedFor : Bool → List Change → List Change → Type 0
  AskedFor accepted before after =
      (c : Change) × ((after ≡ c ∷ before) × (smfi c ≡ accepted) × Means modification target c)

  -- ACL_NONE: one change of the kind that is meant, which was accepted. ACL_ERROR: none, or one that was
  -- refused. A fault: none.
  abbrev pub Answered : List Change → Result ActionType × ModState → Type 0
  Answered before (ok acl_none, s) = AskedFor true before s.asked
  Answered before (ok acl_error, s) = (s.asked ≡ before) ⊎ AskedFor false before s.asked
  Answered before (fail e, s) = s.asked ≡ before
  Answered before (ok _, s) = ⊥

  -- The same of a callback
  abbrev Called : List Change → Result Bool × ModState → Type 0
  Called before (ok true, s) = AskedFor true before s.asked
  Called before (ok false, s) = (s.asked ≡ before) ⊎ AskedFor false before s.asked
  Called before (fail e, s) = s.asked ≡ before

  ask-Called :
      (c : Change) (s : ModState) → Means modification target c → Called s.asked (ask smfi atol c s)
  unfolding ask
  ask-Called c s m = asked (smfi c) refl
    where
      asked : (b : Bool) → smfi c ≡ b → Called s.asked (ok b, record s { asked = c ∷ s.asked })
      asked true e = (c, (refl, e, m))
      asked false e = inr (c, (refl, e, m))

  abbrev IsMeant : Callback → Type 0
  IsMeant mm_callback =
      (texts : List (Option String)) (s : ModState) → Called s.asked (mm_callback texts s)

  of_some : {c d : Callback} → IsMeant c → some c ≡ some d → IsMeant d
  of_some {c} {d} h e = let same : c ≡ d = cc in rw (sym same) h

module _ (smfi : Change → Bool) (atol : String → ℤ) where
  adding_header-IsMeant : IsMeant smfi atol mo_add mt_header (msgmod_add_header smfi atol)
  unfolding msgmod_add_header
  adding_header-IsMeant [] s = inl refl
  adding_header-IsMeant (f ∷ []) s = inl refl
  adding_header-IsMeant (f ∷ v ∷ []) s =
      ask-Called smfi atol mo_add mt_header (addheader f v) s (new_header f v)
  adding_header-IsMeant (f ∷ v ∷ w ∷ ws) s = inl refl

  insert_header-IsMeant : IsMeant smfi atol mo_ins mt_header (msgmod_insert_header smfi atol)
  unfolding msgmod_insert_header
  insert_header-IsMeant [] s = inl refl
  insert_header-IsMeant (f ∷ []) s = inl refl
  insert_header-IsMeant (f ∷ v ∷ []) s =
      ask-Called smfi atol mo_ins mt_header (insheader (pos 0) f v) s (insert_header (pos 0) f v)
  insert_header-IsMeant (f ∷ v ∷ none ∷ []) s = refl
  insert_header-IsMeant (f ∷ v ∷ some i ∷ []) s =
      ask-Called smfi atol mo_ins mt_header (insheader (atol i) f v) s (insert_header (atol i) f v)
  insert_header-IsMeant (f ∷ v ∷ i ∷ w ∷ ws) s = inl refl

  change_header-IsMeant : IsMeant smfi atol mo_chg mt_header (msgmod_change_header smfi atol)
  unfolding msgmod_change_header
  change_header-IsMeant [] s = inl refl
  change_header-IsMeant (f ∷ []) s = inl refl
  change_header-IsMeant (f ∷ v ∷ []) s =
      ask-Called smfi atol mo_chg mt_header (chgheader f (pos 1) v) s (change_header f (pos 1) v)
  change_header-IsMeant (f ∷ v ∷ none ∷ []) s = refl
  change_header-IsMeant (f ∷ v ∷ some i ∷ []) s =
      ask-Called smfi atol mo_chg mt_header (chgheader f (atol i) v) s (change_header f (atol i) v)
  change_header-IsMeant (f ∷ v ∷ i ∷ w ∷ ws) s = inl refl

  delete_header-IsMeant : IsMeant smfi atol mo_del mt_header (msgmod_delete_header smfi atol)
  unfolding msgmod_delete_header
  delete_header-IsMeant [] s = inl refl
  delete_header-IsMeant (f ∷ []) s =
      ask-Called smfi atol mo_del mt_header (chgheader f (pos 1) none) s (delete_header f (pos 1))
  delete_header-IsMeant (f ∷ v ∷ vs) s = inl refl

  change_from-IsMeant : IsMeant smfi atol mo_chg mt_from (msgmod_change_from smfi atol)
  unfolding msgmod_change_from
  change_from-IsMeant [] s = inl refl
  change_from-IsMeant (f ∷ []) s =
      ask-Called smfi atol mo_chg mt_from (chgfrom f none) s (change_from f none)
  change_from-IsMeant (f ∷ v ∷ []) s =
      ask-Called smfi atol mo_chg mt_from (chgfrom f v) s (change_from f v)
  change_from-IsMeant (f ∷ v ∷ w ∷ ws) s = inl refl

  add_rcpt-IsMeant : IsMeant smfi atol mo_add mt_rcpt (msgmod_add_rcpt smfi atol)
  unfolding msgmod_add_rcpt
  add_rcpt-IsMeant [] s = inl refl
  add_rcpt-IsMeant (f ∷ []) s = ask-Called smfi atol mo_add mt_rcpt (addrcpt f) s (add_rcpt f)
  add_rcpt-IsMeant (f ∷ v ∷ []) s =
      ask-Called smfi atol mo_add mt_rcpt (addrcpt_par f v) s (add_rcpt_par f v)
  add_rcpt-IsMeant (f ∷ v ∷ w ∷ ws) s = inl refl

  delete_rcpt-IsMeant : IsMeant smfi atol mo_del mt_rcpt (msgmod_delete_rcpt smfi atol)
  unfolding msgmod_delete_rcpt
  delete_rcpt-IsMeant [] s = inl refl
  delete_rcpt-IsMeant (f ∷ []) s = ask-Called smfi atol mo_del mt_rcpt (delrcpt f) s (delete_rcpt f)
  delete_rcpt-IsMeant (f ∷ v ∷ vs) s = inl refl

  change_body-IsMeant : IsMeant smfi atol mo_chg mt_body (msgmod_change_body smfi atol)
  unfolding msgmod_change_body
  change_body-IsMeant [] s = inl refl
  change_body-IsMeant (none ∷ []) s = refl
  change_body-IsMeant (some b ∷ []) s =
      ask-Called smfi atol mo_chg mt_body (replacebody b) s (change_body b)
  change_body-IsMeant (none ∷ v ∷ vs) s = inl refl
  change_body-IsMeant (some b ∷ v ∷ vs) s = inl refl

  -- The callback of a modification and a target asks for changes of this kind only.
  callback-IsMeant :
      (m : Modification) (t : Target) {mm_callback : Callback}
      → msgmod_get_callback smfi atol m t ≡ some mm_callback
      → IsMeant smfi atol m t mm_callback
  unfolding msgmod_get_callback
  callback-IsMeant mo_add mt_from e = cc
  callback-IsMeant mo_add mt_rcpt e = of_some smfi atol mo_add mt_rcpt add_rcpt-IsMeant e
  callback-IsMeant mo_add mt_header e = of_some smfi atol mo_add mt_header adding_header-IsMeant e
  callback-IsMeant mo_add mt_body e = cc
  callback-IsMeant mo_ins mt_from e = cc
  callback-IsMeant mo_ins mt_rcpt e = cc
  callback-IsMeant mo_ins mt_header e = of_some smfi atol mo_ins mt_header insert_header-IsMeant e
  callback-IsMeant mo_ins mt_body e = cc
  callback-IsMeant mo_chg mt_from e = of_some smfi atol mo_chg mt_from change_from-IsMeant e
  callback-IsMeant mo_chg mt_rcpt e = cc
  callback-IsMeant mo_chg mt_header e = of_some smfi atol mo_chg mt_header change_header-IsMeant e
  callback-IsMeant mo_chg mt_body e = of_some smfi atol mo_chg mt_body change_body-IsMeant e
  callback-IsMeant mo_del mt_from e = cc
  callback-IsMeant mo_del mt_rcpt e = of_some smfi atol mo_del mt_rcpt delete_rcpt-IsMeant e
  callback-IsMeant mo_del mt_header e = of_some smfi atol mo_del mt_header delete_header-IsMeant e
  callback-IsMeant mo_del mt_body e = cc

  -- With the callback of a modification and a target: the handler answers ACL_NONE only if libmilter was asked for one change, of this kind, and accepted it; it answers ACL_ERROR only if libmilter was asked for nothing, or for one change of this kind and refused it; it gives no other answer, and where it does not return nothing was asked for.
  pub msgmod-Answered :
      (r : Registry) (m : Modification) (t : Target) (mm_callback : Callback) (mm_args : List Exp)
      (s : ModState)
      → msgmod_get_callback smfi atol m t ≡ some mm_callback
      → Answered smfi atol m t s.asked (msgmod r mm_callback mm_args s)
  unfolding msgmod
  msgmod-Answered r m t mm_callback mm_args s e =
      elim (Option-cases (vtable_get s.mailspec "milter_ctx")) [
        | inl no_ctx ↦ rw (no_ctx, msgmod) refl
        | inr (ctx, known) ↦
            rw (known, msgmod)
              (evaluated (eval_args r mm_args s.mailspec).0 (eval_args r mm_args s.mailspec).1)
      ]
    where
      called :
          (x : Result Bool) (s' : ModState)
          → Called smfi atol m t s.asked (x, s')
          → Answered smfi atol m t s.asked (continue x (λ done. pure (answer_of r done)) s')
      called (ok true) s' h = h
      called (ok false) s' h = h
      called (fail f) s' h = h

      evaluated :
          (x : Result (Option (List (Option String)))) (vs : Vars)
          → Answered smfi atol m t s.asked
              (continue x (λ texts. run_callback r mm_callback texts) (record s { mailspec = vs }))
      evaluated (fail f) vs = refl
      evaluated (ok none) vs = inl refl
      evaluated (ok (some texts)) vs =
          let s' = record s { mailspec = vs } in
          called (mm_callback texts s').0 (mm_callback texts s').1 (callback-IsMeant m t e texts s')
