-- ===== src/Milter/Clear.antt =====
-- What is left of a message when it ends.
use mopher.Prelude.{◌≡◌, refl, String, none, List, [], ◌∷◌, ◌++◌, true}
use mopher.Prelude.Int.{pos}
use mopher.Var.{Vars}
use mopher.Stage.{Stage}
use mopher.Milter.{Stages, MilterPriv, is_set, clear_symbols, milter_priv_clear_msg}

joined_set : (xs ys : Stages) (y : Stage) → is_set (xs ++ (y ∷ ys)) ≡ true
joined_set [] ys y = refl
joined_set (x ∷ xs) ys y = refl

symbols_kept :
    (stages : Stages) (y : Stage) (symbols : List (String × Stages)) (m : Vars)
    → clear_symbols (y ∷ stages) symbols m ≡ m
unfolding clear_symbols
symbols_kept stages y [] m = refl
symbols_kept stages y ((name, ms) ∷ rest) m =
    rw (joined_set ms stages y) (symbols_kept stages y rest m)

-- `milter_priv_clear_msg` drops the header, the body and their counters, and keeps every variable of the
-- message.
pub milter_priv_clear_msg-keeps :
    (mp : MilterPriv)
    → milter_priv_clear_msg mp ≡ record mp {
      mp_recipients = pos 0;
      mp_header = none;
      mp_headerlen = pos 0;
      mp_body = none;
      mp_bodylen = pos 0;
    }
unfolding milter_priv_clear_msg
milter_priv_clear_msg-keeps mp = rw (symbols_kept _ _ _ mp.mp_table) refl
