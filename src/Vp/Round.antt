-- ===== src/Vp/Round.antt =====
-- A packed record comes back, by the scheme that has its types and names.
use mathlib.Core.List.{append_assoc, append-nil}
use mopher.Prelude.{
  ℕ, suc, ◌+◌, ◌≤◌, ◌<◌, ◌≡◌, refl, ◌∙◌, true, false, Option, none, some, List, [], ◌∷◌, ◌++◌,
  arith, leb, length,
}
use mopher.Exec.{ok}
use mopher.Var.Cast.{VarType}
use mopher.Vp.{
  Item, item, Record, Vp, vp_field_limit, vp_field_is_null, vp_set_null, pack_items, vp_pack,
  unpack_items, vp_unpack,
}
use mopher.Vp.Bits.{no_bits, field_is_null-set_null}
use mopher.Vp.Objects.{IsObject, unpack_data-append, pack_data-IsObject}

-- A key has data, and data is one object of its type.
abbrev pub IsItem : Item → Type 0
IsItem (item t name key (some p)) = IsObject t p
IsItem (item t name false none) = Unit
IsItem (item t name true none) = ⊥

abbrev pub AreItems : List Item → Type 0
AreItems [] = Unit
AreItems (i ∷ items) = IsItem i × AreItems items

-- What the loop of `vp_pack` makes of the items
unfoldable pub keys_of : List Item → List ℕ
keys_of [] = []
keys_of (item t name true (some p) ∷ items) = p ++ keys_of items
keys_of (item t name _ _ ∷ items) = keys_of items

unfoldable pub fields_of : List Item → List ℕ
fields_of [] = []
fields_of (item t name false (some p) ∷ items) = p ++ fields_of items
fields_of (item t name _ _ ∷ items) = fields_of items

unfoldable pub nulls_of : List Item → ℕ → ℕ → ℕ
nulls_of [] n nulls = nulls
nulls_of (item t name key none ∷ items) n nulls = nulls_of items (suc n) (vp_set_null nulls n)
nulls_of (item t name key (some p) ∷ items) n nulls = nulls_of items (suc n) nulls

abbrev packed_onto : List Item → ℕ → Vp → Vp
packed_onto items n vp = record {
  vp_key = vp.vp_key ++ keys_of items;
  vp_null_fields = nulls_of items n vp.vp_null_fields;
  vp_fields = vp.vp_fields ++ fields_of items;
}

module _ (dump : List ℕ → Option (List ℕ)) where
  pack_items-AreItems :
      (items : List Item) (n : ℕ) (vp : Vp)
      → AreItems items
      → pack_items dump items n vp ≡ ok (packed_onto items n vp)
  unfolding pack_items keys_of fields_of nulls_of
  pack_items-AreItems [] n vp h = rw (append-nil, append-nil) refl
  pack_items-AreItems (item t name true none ∷ items) n vp h = absurd h.0
  pack_items-AreItems (item t name false none ∷ items) n vp h =
      pack_items-AreItems items (suc n)
        (record vp { vp_null_fields = vp_set_null vp.vp_null_fields n }) h.1
  pack_items-AreItems (item t name true (some p) ∷ items) n vp h =
      rw
        (
          pack_data-IsObject dump t p h.0,
          pack_items-AreItems items (suc n) (record vp { vp_key = vp.vp_key ++ p }) h.1,
        )
        (rw (append_assoc vp.vp_key p (keys_of items)) refl)
  pack_items-AreItems (item t name false (some p) ∷ items) n vp h =
      rw
        (
          pack_data-IsObject dump t p h.0,
          pack_items-AreItems items (suc n) (record vp { vp_fields = vp.vp_fields ++ p }) h.1,
        )
        (rw (append_assoc vp.vp_fields p (fields_of items)) refl)

-- The null fields say which of the items have no data.
abbrev Marks : ℕ → List Item → ℕ → Type 0
Marks nulls [] n = Unit
Marks nulls (item t name key none ∷ items) n =
    (vp_field_is_null nulls n ≡ true) × Marks nulls items (suc n)
Marks nulls (item t name key (some p) ∷ items) n =
    (vp_field_is_null nulls n ≡ false) × Marks nulls items (suc n)

-- Later items leave a bit alone.
earlier_bit :
    (items : List Item) (n j nulls : ℕ)
    → j < n
    → vp_field_is_null (nulls_of items n nulls) j ≡ vp_field_is_null nulls j
unfolding nulls_of
earlier_bit [] n j nulls h = refl
earlier_bit (item t name key none ∷ items) n j nulls h =
    earlier_bit items (suc n) j (vp_set_null nulls n) (omega arith)
    ∙ (field_is_null-set_null nulls n j ∙ ground arith)
earlier_bit (item t name key (some p) ∷ items) n j nulls h =
    earlier_bit items (suc n) j nulls (omega arith)

abbrev AreUnset : ℕ → ℕ → Type 0
AreUnset nulls n = (j : ℕ) → n ≤ j → vp_field_is_null nulls j ≡ false

nulls_of-Marks :
    (items : List Item) (n nulls : ℕ) → AreUnset nulls n → Marks (nulls_of items n nulls) items n
unfolding nulls_of
nulls_of-Marks [] n nulls h = tt
nulls_of-Marks (item t name key none ∷ items) n nulls h = (
  earlier_bit items (suc n) n (vp_set_null nulls n) (omega arith)
      ∙ (field_is_null-set_null nulls n n ∙ ground arith),
  nulls_of-Marks items (suc n) (vp_set_null nulls n)
      (λ j above. field_is_null-set_null nulls n j ∙ ground (arith, h j)),
)
nulls_of-Marks (item t name key (some p) ∷ items) n nulls h = (
  earlier_bit items (suc n) n nulls (omega arith) ∙ h n (omega arith),
  nulls_of-Marks items (suc n) nulls (λ j above. h j (omega arith)),
)

-- The types and names of the items
unfoldable pub without_data : List Item → List Item
without_data [] = []
without_data (item t name key d ∷ items) = item t name key none ∷ without_data items

unpack_items-Marks :
    (items : List Item) (n nulls : ℕ)
    → AreItems items
    → Marks nulls items n
    → n + length items ≤ vp_field_limit
    → unpack_items (without_data items) n nulls (keys_of items) (fields_of items) ≡ ok items
unfolding unpack_items keys_of fields_of without_data
unpack_items-Marks [] n nulls h m l = refl
unpack_items-Marks (item t name true none ∷ items) n nulls h m l = absurd h.0
unpack_items-Marks (item t name false none ∷ items) n nulls h m l =
    let room : leb vp_field_limit n ≡ false = ground arith in
    rw (room, m.0, unpack_items-Marks items (suc n) nulls h.1 m.1 (omega arith)) refl
unpack_items-Marks (item t name true (some p) ∷ items) n nulls h m l =
    let room : leb vp_field_limit n ≡ false = ground arith in
    rw
      (
        room,
        m.0,
        unpack_data-append t p (keys_of items) h.0,
        unpack_items-Marks items (suc n) nulls h.1 m.1 (omega arith),
      )
      refl
unpack_items-Marks (item t name false (some p) ∷ items) n nulls h m l =
    let room : leb vp_field_limit n ≡ false = ground arith in
    rw
      (
        room,
        m.0,
        unpack_data-append t p (fields_of items) h.0,
        unpack_items-Marks items (suc n) nulls h.1 m.1 (omega arith),
      )
      refl

abbrev pub scheme_of : Record → Record
scheme_of r = record { type = r.type; name = r.name; items = without_data r.items }

-- A record that the loops can pack
pub record IsRecord (r : Record) : Type 0 where
  pub is_list : r.type ≡ VarType.vt_list
  pub few : length r.items ≤ vp_field_limit
  pub objects : AreItems r.items

abbrev pub pack_of : Record → Vp
pack_of r = record {
  vp_key = keys_of r.items;
  vp_null_fields = nulls_of r.items 0 0;
  vp_fields = fields_of r.items;
}

pub vp_pack-IsRecord :
    (dump : List ℕ → Option (List ℕ)) (r : Record) → IsRecord r → vp_pack dump r ≡ ok (pack_of r)
unfolding vp_pack
vp_pack-IsRecord dump r h =
    let fits : leb (length r.items) vp_field_limit ≡ true = ground (arith, h.few) in
    rw (h.is_list, fits)
      (pack_items-AreItems dump r.items 0
        (record { vp_key = []; vp_null_fields = 0; vp_fields = [] }) h.objects)

pub unpack-pack_of : (r : Record) → IsRecord r → vp_unpack (pack_of r) (scheme_of r) ≡ ok r
unfolding vp_unpack
unpack-pack_of r h =
    rw
      (
        h.is_list,
        unpack_items-Marks r.items 0 (nulls_of r.items 0 0) h.objects
            (nulls_of-Marks r.items 0 0 (λ j above. no_bits j)) (ground (arith, h.few)),
      )
      refl

-- A record is packed, and unpacked by its scheme is the record again, if it has at most 64 variables, every key has data, and all data is one integer, floating-point number, text, address or blob.
pub vp_unpack-vp_pack :
    (dump : List ℕ → Option (List ℕ)) (r : Record)
    → IsRecord r
    → (vp : Vp) × ((vp_pack dump r ≡ ok vp) × (vp_unpack vp (scheme_of r) ≡ ok r))
vp_unpack-vp_pack dump r h = (pack_of r, (vp_pack-IsRecord dump r h, unpack-pack_of r h))
