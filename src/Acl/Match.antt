-- ===== src/Acl/Match.antt =====
-- The record of the rule that matched first.
use mopher.Prelude.{◌≡◌, true, Option, none, some, arith, Bool-cases, inl, inr}
use mopher.Prelude.Int.{ℤ, pos, ◌≤ℤ◌, le→ltb_ℤ}
use mopher.Var.{Vars, int}
use mopher.Vtable.{vtable_get}
use mopher.Vtable.Laws.{get-set_new}
use mopher.Greylist.Handler.{get_int}
use mopher.Acl.{Place, set_match, keeps_match, acl_match}

set_match-get :
    (m : Vars) (matched stage : ℤ) (p : Place)
    → (get_int (set_match m matched stage p) "acl_matched" ≡ some matched)
      × (get_int (set_match m matched stage p) "acl_stage_matched" ≡ some stage)
unfolding set_match
set_match-get m matched stage p =
    let one : vtable_get (set_match m matched stage p) "acl_matched" ≡ some (int (some matched)) =
      simp get-set_new in
    let here : vtable_get (set_match m matched stage p) "acl_stage_matched"
        ≡ some (int (some stage)) =
      simp get-set_new in
    (rw (one, get_int), rw (here, get_int))

keeps_match_earlier :
    (before stage_matched : Option ℤ) (stage stage' : ℤ)
    → stage' ≤ℤ stage
    → keeps_match before stage_matched stage ≡ true
    → keeps_match before stage_matched stage' ≡ true
keeps_match_earlier none stage_matched stage stage' h e = cc
keeps_match_earlier (some b) none stage stage' h e = cc
keeps_match_earlier (some b) (some sm) stage stage' h e = ground arith

-- After a rule has matched, no match of the same stage or of a stage with a smaller bit changes what is
-- recorded.
pub acl_match-first :
    (m : Vars) (stage stage' matched : ℤ) (p q : Place)
    → stage' ≤ℤ stage
    → acl_match (acl_match m (pos 1) stage p) matched stage' q ≡ acl_match m (pos 1) stage p
unfolding acl_match
acl_match-first m stage stage' matched p q h =
    elim (Bool-cases
      (keeps_match (get_int m "acl_matched") (get_int m "acl_stage_matched") stage)) [
        | inl kept ↦
            let again = keeps_match_earlier _ _ stage stage' h kept in
            let same : acl_match m (pos 1) stage p ≡ m = rw (kept, acl_match) in
            rw same (rw (again, acl_match))
        | inr fresh ↦
            let recorded : acl_match m (pos 1) stage p ≡ set_match m (pos 1) stage p =
              rw (fresh, acl_match) in
            let (one, here) = set_match-get m (pos 1) stage p in
            rw recorded (rw (one, here, acl_match) (rw (le→ltb_ℤ stage stage' h)))
      ]
