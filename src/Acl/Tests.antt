-- ===== src/Acl/Tests.antt =====
-- What the access list of Acl/Sample.antt answers, and the theorems on its tables.
use mopher.Prelude.{
  ℕ, zero, suc, ◌<◌, String, ◌≡◌, refl, none, some, List, [], ◌∷◌, arith, inl, ◌⊎◌, if◌then◌else◌,
  str_eq,
}
use mopher.Prelude.Int.{pos}
use mopher.Var.{Var, nil, var_true}
use mopher.Vtable.{vtable_get, vtable_set_new}
use mopher.Exec.{ok}
use mopher.Exec.Post.{Post}
use mopher.Stage.{connect, unknown, envrcpt}
use mopher.Action.{acl_error, acl_reject, acl_accept, acl_continue, is_allowed}
use mopher.Acl.{
  AclEnv, AclState, Rule, Plain, Place, plain, jump, call, acl, acl_rules, acl_table, acl_match,
  handle, exp_is_true,
}
use mopher.Acl.Depth.{IsChain, acl-chain, acl-again}
use mopher.Acl.Match.{acl_match-first}
use mopher.Acl.Rules.{acl_rules-jump, acl-unknown, IsSilent}
use mopher.Acl.Replies.{acl-Fits}
use mopher.Acl.Replies.Send.{Fits}
use mopher.Acl.Sample.{config, start, entry, tables}

program : Unit {0}
unfolding tables var_true acl acl_table acl_rules handle is_allowed vtable_get vtable_set_new
    acl_match exp_is_true
program = tt

refused :
    ((acl config connect "connect" 0 start).0 ≡ ok acl_reject)
    × ((acl config connect "connect" 0 start).1.reply ≡ some ("550", some "5.7.1", "no"))
unfolding program
refused = (refl, refl)

jumped : (acl config envrcpt "envrcpt" 0 start).0 ≡ ok acl_continue
unfolding program
jumped = refl

misfitted :
    ((acl config connect "helo" 0 start).0 ≡ ok acl_error)
    × ((acl config connect "helo" 0 start).1.reply ≡ none)
unfolding program
misfitted = (refl, refl)

abbrev names : ℕ → String
names zero = "first"
names (suc zero) = "second"
names (suc (suc i)) = "third"

-- Three tables: a call, a call, and an answer
abbrev chained : AclEnv
chained = record config {
  acl_tables = λ name.
      if str_eq name "first"
      then some (entry none (call "second") none 1 ∷ [])
      else if str_eq name "second"
      then some (entry none (call "third") none 2 ∷ entry none (plain Plain.accept) none 3 ∷ [])
      else some (entry none (plain Plain.continue) none 4 ∷ []);
}

chained-IsChain : IsChain chained names 2
chained-IsChain = record { calls = chained_calls; ends = (_, (_, (refl, refl, refl, refl))) }
  where
    chained_calls :
        (i : ℕ)
        → i < 2
        → (r : Rule Var (Unit {0})) × ((rs : List (Rule Var (Unit {0}))) × ((chained.acl_tables
                  (names i)
                ≡ some (r ∷ rs))
              × (r.expression ≡ none)
              × (r.reply ≡ none)
              × (r.action ≡ call (names (suc i)))))
    chained_calls zero h = (_, (_, (refl, refl, refl, refl)))
    chained_calls (suc zero) h = (_, (_, (refl, refl, refl, refl)))
    chained_calls (suc (suc i)) h = absurd (omega (arith, h))

-- The third table would be one level too deep.
abbrev begin : AclState chained
begin = record { inner = start.inner; reply = none }

acl-chain_example : (acl chained connect "first" 253 begin).0 ≡ ok acl_error
acl-chain_example = acl-chain chained connect (λ e. cc) names 2 chained-IsChain 253 begin

loop_ends : acl config connect "loop" 0 start ≡ (ok acl_error, start)
unfolding tables
loop_ends =
    acl-again config connect "loop" (entry none (call "loop") none 1) [] refl refl (inl refl)
      (ground arith) 0 start

acl-Fits_example :
    Post (acl config connect "connect" 0) start (λ x s'. (s'.reply ≡ start.reply) ⊎ Fits x s'.reply)
acl-Fits_example = acl-Fits config connect "connect" 0 start

jump_sample :
    acl_rules config
      (λ t. acl config envrcpt t 1)
      envrcpt
      1
      (entry none (jump "empty") none 4 ∷ entry none (plain Plain.accept) none 5 ∷ [])
      start
    ≡ acl_rules config
        (λ t. acl config envrcpt t 1)
        envrcpt
        1
        (entry none (jump "empty") none 4 ∷ [])
        start
unfolding exp_is_true
jump_sample =
    acl_rules-jump config (λ t. acl config envrcpt t 1) envrcpt 1 (entry none (jump "empty") none 4)
      (entry none (plain Plain.accept) none 5 ∷ []) [] "empty" start start refl refl

unknown_answers : Post (acl config unknown "connect" 0) start (λ x s'. IsSilent config x)
unknown_answers = acl-unknown config "connect" 0 start

abbrev first_rule : Place
first_rule = record { rule = 1; filename = "mopherd.acl"; line = pos 4; response = acl_reject }

abbrev second_rule : Place
second_rule = record { rule = 2; filename = "mopherd.acl"; line = pos 5; response = acl_accept }

acl_match-first_example :
    acl_match (acl_match nil (pos 1) (pos 32) first_rule) (pos 1) (pos 16) second_rule
    ≡ acl_match nil (pos 1) (pos 32) first_rule
acl_match-first_example =
    acl_match-first nil (pos 32) (pos 16) (pos 1) first_rule second_rule (omega arith)
