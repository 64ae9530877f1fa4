-- ===== src/Milter/Stages.antt =====
-- What a callback of src/milter.c finds of the stage before it, and callbacks without private data.
use mopher.Prelude.{
  ◌≡◌, refl, ◌∙◌, String, false, Option, none, some, Option-cases, inl, inr, str_eq,
}
use mopher.Prelude.Int.{pos}
use mopher.Var.{Var, Vars, var, int, string, v_data}
use mopher.Vtable.{vtable_lookup, vtable_remove, vtable_set_new, vtable_setv, vtable_rename}
use mopher.Vtable.Laws.{lookup-set_new, lookup-remove_ne}
use mopher.Exec.{Result, ok, fail, null_pointer}
use mopher.Stage.{Stage}
use mopher.Action.{ActionType}
use mopher.Greylist.{State}
use mopher.Acl.{AclEnv, stage_bit}
use mopher.Milter.{Sfsistat, smfis_continue, smfis_tempfail, MilterPriv}
use mopher.Milter.Callbacks.{Server, mailbox}
use mopher.Milter.Session.{
  Session, Command, serve, callback, clear_msg, enter, stage_variables, queue_id, on_connect,
  on_unknown, on_helo, on_envfrom, on_envrcpt, on_body, on_header, on_data, on_eoh, on_eom,
  on_abort, on_close, milter_unknown, milter_helo, milter_envfrom, milter_envrcpt, milter_data,
  milter_header, milter_eoh, milter_body, milter_eom, milter_abort, milter_close,
}

queue_id-lookup :
    (l : Server) (stage : Stage) (m : Vars) (k : String)
    → str_eq "queue_id" k ≡ false
    → vtable_lookup (queue_id l stage m) k ≡ vtable_lookup m k
queue_id-lookup l stage m k h = elim (Option-cases (vtable_lookup m "queue_id")) [
  | inr (v, known) ↦ rw (known, queue_id) refl
  | inl unknown ↦ (elim (Option-cases (l.smfi_getsymval stage "i")) [
    | inl no_id ↦ rw (unknown, no_id, queue_id) refl
    | inr (id, some_id) ↦
        rw (unknown, some_id, queue_id)
          (lookup-set_new m "queue_id" k (string (some id)) ∙ rw h refl)
  ])
]

renamed-lookup :
    (m : Vars) (v : Var)
    → vtable_lookup m "stage" ≡ some v
    → (m₁ : Vars) × ((vtable_rename m "stage" "laststage" ≡ some m₁)
        × (vtable_lookup m₁ "laststage" ≡ some (var (some "laststage") (v_data v))))
unfolding vtable_rename
renamed-lookup m v h = (
  vtable_remove (vtable_set_new m "laststage" (v_data v)) "stage",
  (
    rw (h, vtable_rename) refl,
    lookup-remove_ne (vtable_set_new m "laststage" (v_data v)) "stage" "laststage" refl
        ∙ lookup-set_new m "laststage" "laststage" (v_data v),
  ),
)

stage_variables-lookup :
    (l : Server) (stage : Stage) (name : String) (m : Vars)
    → (vtable_lookup (stage_variables l stage name m) "stage"
        ≡ some (var (some "stage") (int (some (pos (stage_bit stage))))))
      × (vtable_lookup (stage_variables l stage name m) "laststage" ≡ vtable_lookup m "laststage")
unfolding vtable_setv
stage_variables-lookup l stage name m = (simp lookup-set_new, simp lookup-set_new)

-- If the session has a stage, the callback goes on with this one, and the last stage is the one that was there.
pub enter-laststage :
    (l : Server) (stage : Stage) (stagename : String) (mp : MilterPriv) {v : Var}
    → vtable_lookup mp.mp_table "stage" ≡ some v
    → (mp₁ : MilterPriv) × ((enter l stage stagename mp ≡ some mp₁)
        × ((vtable_lookup mp₁.mp_table "stage"
              ≡ some (var (some "stage") (int (some (pos (stage_bit stage))))))
            × (vtable_lookup mp₁.mp_table "laststage" ≡ some (var (some "laststage") (v_data v)))))
unfolding enter
enter-laststage l stage stagename mp {v} h =
    let (m₁, (renamed, last)) = renamed-lookup mp.mp_table v h in
    let m₂ = stage_variables l stage stagename m₁ in
    let (now, kept) = stage_variables-lookup l stage stagename m₁ in
    (
      record mp { mp_table = queue_id l stage m₂ },
      (
        rw (renamed, enter) refl,
        (
          queue_id-lookup l stage m₂ "stage" refl ∙ now,
          queue_id-lookup l stage m₂ "laststage" refl ∙ (kept ∙ last),
        ),
      ),
    )

module _ (a : AclEnv) (updates : Stage → ActionType → State a.env → State a.env) (l : Server) where
  -- What a callback answers where libmilter has no private data
  abbrev pub answer_without_data : Command a updates l → Option (Result Sfsistat)
  answer_without_data (on_connect name hostaddr) = none
  answer_without_data on_eom = some (fail null_pointer)
  answer_without_data on_abort = some (fail null_pointer)
  answer_without_data on_close = some (ok smfis_continue)
  answer_without_data c = some (ok smfis_tempfail)

  -- Without private data, every callback but that of a new connection leaves the session as it is: the end and the abort of a message read through a null pointer, the end of the connection is accepted, and all else fails temporarily.
  pub serve-answer_without_data :
      (c : Command a updates l) (s : Session a updates l) {x : Result Sfsistat}
      → s.priv ≡ none
      → answer_without_data c ≡ some x
      → serve a updates l c s ≡ (x, s)
  unfolding serve callback milter_unknown milter_helo milter_envfrom milter_envrcpt milter_data
      milter_header milter_eoh milter_body milter_eom milter_abort milter_close clear_msg
  serve-answer_without_data (on_connect name hostaddr) s e h = cc
  serve-answer_without_data (on_unknown cmd) s e h = rw e cc
  serve-answer_without_data (on_helo name) s e h = rw e cc
  serve-answer_without_data (on_envfrom arg) s e h = rw e cc
  serve-answer_without_data on_data s e h = rw e cc
  serve-answer_without_data (on_header f v) s e h = rw e cc
  serve-answer_without_data on_eoh s e h = rw e cc
  serve-answer_without_data (on_body chunk) s e h = rw e cc
  serve-answer_without_data on_eom s e h = rw e cc
  serve-answer_without_data on_abort s e h = rw e cc
  serve-answer_without_data on_close s e h = rw e cc
  serve-answer_without_data (on_envrcpt arg) s e h = rw e (elim (Option-cases (mailbox l arg)) [
    | inl no_address ↦ rw (no_address, milter_envrcpt) cc
    | inr (address, some_address) ↦ rw (some_address, milter_envrcpt) cc
  ])
