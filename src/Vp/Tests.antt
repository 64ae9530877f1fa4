-- ===== src/Vp/Tests.antt =====
-- A record of a number as key, a text and a number that is not set.
use mopher.Prelude.{ℕ, ◌≡◌, refl, true, false, Option, none, some, List, [], ◌∷◌, arith}
use mopher.Exec.{ok, fail, undefined}
use mopher.Var.Cast.{VarType}
use mopher.Vp.{item, Record, Vp, vp_pack, vp_unpack, copy_size}
use mopher.Vp.Round.{IsRecord, scheme_of, vp_unpack-vp_pack}

abbrev no_dump : List ℕ → Option (List ℕ)
no_dump p = none

abbrev hits : Record
hits = record {
  type = VarType.vt_list;
  name = some "hits";
  items =
      item VarType.vt_int (some "hits_key") true (some (1 ∷ 2 ∷ 0 ∷ 0 ∷ 0 ∷ 0 ∷ 0 ∷ 0 ∷ []))
      ∷ item VarType.vt_string (some "hits_text") false (some (b'h' ∷ b'i' ∷ 0 ∷ []))
      ∷ item VarType.vt_int (some "hits_left") false none
      ∷ [];
}

hits_pack :
    vp_pack no_dump hits
    ≡ ok (record {
      vp_key = 1 ∷ 2 ∷ 0 ∷ 0 ∷ 0 ∷ 0 ∷ 0 ∷ 0 ∷ [];
      vp_null_fields = 4;
      vp_fields = b'h' ∷ b'i' ∷ 0 ∷ [];
    })
unfolding vp_pack
hits_pack = refl

-- A text that nothing ends is not read.
unending :
    vp_unpack
      (record { vp_key = []; vp_null_fields = 0; vp_fields = b'h' ∷ [] })
      (record {
        type = VarType.vt_list;
        name = none;
        items = item VarType.vt_string none false none ∷ [];
      })
    ≡ fail undefined
unfolding vp_unpack
unending = refl

hits-IsRecord : IsRecord hits
unfolding copy_size
hits-IsRecord = record { is_list = refl; few = omega arith; objects = (refl, (refl, (tt, tt))) }

vp_unpack-vp_pack_example :
    (vp : Vp) × ((vp_pack no_dump hits ≡ ok vp) × (vp_unpack vp (scheme_of hits) ≡ ok hits))
vp_unpack-vp_pack_example = vp_unpack-vp_pack no_dump hits hits-IsRecord
