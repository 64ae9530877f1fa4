-- ===== src/Vp.antt =====
-- Records of variables packed for a database (src/vp.c), and what of src/var.c it calls. The data of a
-- variable is the bytes that a pointer leads to, from there on: a read behind the last one is undefined.
-- Integers and floating-point numbers have 8 bytes, a socket address 128, the size in front of a blob 8
-- in little-endian order. A list or a table is what `var_dump_data` takes; this function is a
-- parameter, with the text that it writes, without the zero byte.
pub mod Bits
pub mod Objects
pub mod Round
pub mod Keys
mod Tests
use mopher.Prelude.{
  ℕ, zero, suc, ◌+◌, ◌*◌, ◌/◌, ◌%◌, String, Bool, true, false, ◌&&◌, Option, none, some, List, [],
  ◌∷◌, ◌++◌, ltb, leb, ◌==◌, if◌then◌else◌, length, take, drop,
}
use mopher.Exec.{Result, ok, fail, error, undefined}
use mopher.Var.Cast.{VarType}

-- The type, the name, whether `VF_KEY` is set, and the data
pub data Item : Type 0 where
  item : VarType → Option String → Bool → Option (List ℕ) → Item

-- A variable of type `VT_LIST`, or of another type with no items
pub record Record : Type 0 where
  pub type : VarType
  pub name : Option String
  pub items : List Item

-- `vp_data` is the 8 bytes of the null fields and `vp_fields` behind them.
pub record Vp : Type 0 where
  pub vp_key : List ℕ
  pub vp_null_fields : ℕ
  pub vp_fields : List ℕ

abbrev pub vp_field_limit : ℕ
vp_field_limit = 64

infixl 10 ◌>>=◌
abbrev pub ◌>>=◌ : {A B : Type 0} → Result A → (A → Result B) → Result B
ok a >>= f = f a
fail e >>= f = fail e

abbrev pub is_list : VarType → Bool
is_list VarType.vt_list = true
is_list _ = false

-- The bit of a field, and the number with this bit
unfoldable pub vp_field_is_null : ℕ → ℕ → Bool
vp_field_is_null fields zero = fields % 2 == 1
vp_field_is_null fields (suc n) = vp_field_is_null (fields / 2) n

unfoldable pub vp_set_null : ℕ → ℕ → ℕ
vp_set_null fields zero = if fields % 2 == 1 then fields else fields + 1
vp_set_null fields (suc n) = vp_set_null (fields / 2) n * 2 + fields % 2

-- `none` where no zero byte ends the text
unfoldable pub strlen : List ℕ → Option ℕ
strlen [] = none
strlen (zero ∷ s) = some 0
strlen (suc c ∷ s) = let rest = strlen s in elim rest [ none ↦ none | some n ↦ some (suc n) ]

unfoldable pub little_endian : List ℕ → ℕ
little_endian [] = 0
little_endian (b ∷ bs) = b + 256 * little_endian bs

-- `*b` of a blob, which the callers keep in an `int`
unfoldable pub blob_t : List ℕ → Result ℕ
unfolding little_endian
blob_t p =
    let size = little_endian (take 8 p) in
    if leb 8 (length p) && ltb size 0x80000000 then ok size else fail undefined

unfoldable pub string_size : List ℕ → Result ℕ
unfolding strlen
string_size p = elim (strlen p) [ none ↦ fail undefined | some n ↦ ok (suc n) ]

-- The sizes in `var_copy_data`. What is no pointer to a list or a table cannot be copied as one.
unfoldable pub copy_size : VarType → List ℕ → Result ℕ
unfolding string_size blob_t
copy_size VarType.vt_int p = ok 8
copy_size VarType.vt_float p = ok 8
copy_size VarType.vt_string p = string_size p
copy_size VarType.vt_addr p = ok 128
copy_size VarType.vt_blob p = blob_t p
copy_size VarType.vt_list p = fail undefined
copy_size VarType.vt_table p = fail undefined
copy_size VarType.vt_null p = fail error
copy_size VarType.vt_pointer p = fail error

-- `memcpy` of so many bytes
unfoldable pub read : ℕ → List ℕ → Result (List ℕ)
read n p = if leb n (length p) then ok (take n p) else fail undefined

unfoldable pub var_copy_data : VarType → List ℕ → Result (List ℕ)
unfolding copy_size read
var_copy_data t p = do n ← copy_size t p; read n p

unfoldable pub var_data_size : VarType → List ℕ → Result ℕ
unfolding string_size blob_t
var_data_size VarType.vt_string p = string_size p
var_data_size VarType.vt_int p = ok 8
var_data_size VarType.vt_float p = ok 8
var_data_size VarType.vt_addr p = ok 128
var_data_size VarType.vt_blob p = blob_t p
var_data_size _ p = ok 0

module _ (var_dump_data : List ℕ → Option (List ℕ)) where
  abbrev dumped : Option (List ℕ) → Result (List ℕ)
  dumped none = fail error
  dumped (some text) = ok (text ++ 0 ∷ [])

  -- The bytes that `vp_pack_data` appends
  unfoldable pub vp_pack_data : VarType → List ℕ → Result (List ℕ)
  unfolding var_data_size read
  vp_pack_data VarType.vt_list p = dumped (var_dump_data p)
  vp_pack_data VarType.vt_table p = dumped (var_dump_data p)
  vp_pack_data t p = do size ← var_data_size t p; read size p

  -- The branch of a variable with data
  abbrev pub add_data : Bool → List ℕ → Vp → Vp
  add_data true bytes vp = record vp { vp_key = vp.vp_key ++ bytes }
  add_data false bytes vp = record vp { vp_fields = vp.vp_fields ++ bytes }

  abbrev pub pack_item : Item → ℕ → Vp → Result Vp
  pack_item (item t name true none) n vp = fail error
  pack_item (item t name false none) n vp =
      ok (record vp { vp_null_fields = vp_set_null vp.vp_null_fields n })
  pack_item (item t name key (some p)) n vp =
      vp_pack_data t p >>= λ bytes. ok (add_data key bytes vp)

  -- The loop of `vp_pack`
  unfoldable pub pack_items : List Item → ℕ → Vp → Result Vp
  unfolding vp_set_null vp_pack_data
  pack_items [] n vp = ok vp
  pack_items (i ∷ items) n vp = do vp' ← pack_item i n vp; pack_items items (suc n) vp'

  unfoldable pub vp_pack : Record → Result Vp
  unfolding pack_items
  vp_pack r =
      if is_list r.type && leb (length r.items) vp_field_limit
      then pack_items r.items 0 (record { vp_key = []; vp_null_fields = 0; vp_fields = [] })
      else fail error

-- A copy of the bytes for a variable of the type, and the bytes behind them
unfoldable pub unpack_data : VarType → List ℕ → Result (List ℕ × List ℕ)
unfolding var_copy_data var_data_size
unpack_data t p = do copy ← var_copy_data t p; size ← var_data_size t copy; ok (copy, drop size p)

-- The loop of `vp_unpack`, with what is left of the key and of the fields. A shift by 64 or more is
-- undefined.
unfoldable pub unpack_items : List Item → ℕ → ℕ → List ℕ → List ℕ → Result (List Item)
unfolding vp_field_is_null unpack_data
unpack_items [] n nulls key fields = ok []
unpack_items (item t name is_key old ∷ items) n nulls key fields =
    let from_key : Result (List Item) = (do
      (bytes, key') ← unpack_data t key
      rest ← unpack_items items (suc n) nulls key' fields
      ok (item t name is_key (some bytes) ∷ rest)) in
    let without : Result (List Item) = (do
      rest ← unpack_items items (suc n) nulls key fields
      ok (item t name is_key none ∷ rest)) in
    let from_fields : Result (List Item) = (do
      (bytes, fields') ← unpack_data t fields
      rest ← unpack_items items (suc n) nulls key fields'
      ok (item t name is_key (some bytes) ∷ rest)) in
    if leb vp_field_limit n
    then fail undefined
    else if vp_field_is_null nulls n && is_key
    then fail error
    else if is_key
    then from_key
    else if vp_field_is_null nulls n
    then without
    else from_fields

unfoldable pub vp_unpack : Vp → Record → Result Record
unfolding unpack_items
vp_unpack vp scheme =
    if is_list scheme.type
    then (do
      items ← unpack_items scheme.items 0 vp.vp_null_fields vp.vp_key vp.vp_fields
      ok (record { type = VarType.vt_list; name = scheme.name; items = items }))
    else fail error
