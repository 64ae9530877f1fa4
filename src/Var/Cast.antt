-- ===== src/Var/Cast.antt =====
-- Types of variables and casts between them (src/var.c). What C does with floating-point numbers and
-- the functions of its library and of src/util.c that read and print data are a `Casts`.
use mopher.Prelude.{
  ℕ, String, Bool, true, false, not, ◌&&◌, Option, none, some, ltb, ◌==◌, str_eq, if◌then◌else◌,
}
use mopher.Prelude.Int.{ℤ, pos, negsuc, eqb_ℤ}
use mopher.Exec.{Result, ok, fail, null_pointer}
use mopher.Var.{
  Data, Var, Vars, null, table, list, addr, int, float, pointer, string, blob, var, nil, cons,
  is_null, v_data, as_int,
}
use Prim.Native.String.{len}

-- `var_type_t`; the order of the types decides what is cast to what.
pub data VarType : Type 0 where
  vt_null vt_table vt_list vt_addr vt_int vt_float vt_pointer vt_string vt_blob : VarType

abbrev pub type_rank : VarType → ℕ
type_rank VarType.vt_null = 0
type_rank VarType.vt_table = 1
type_rank VarType.vt_list = 2
type_rank VarType.vt_addr = 3
type_rank VarType.vt_int = 4
type_rank VarType.vt_float = 5
type_rank VarType.vt_pointer = 6
type_rank VarType.vt_string = 7
type_rank VarType.vt_blob = 8

abbrev pub v_type : Data → VarType
v_type null = VarType.vt_null
v_type (table xs) = VarType.vt_table
v_type (list xs) = VarType.vt_list
v_type (addr a) = VarType.vt_addr
v_type (int i) = VarType.vt_int
v_type (float f) = VarType.vt_float
v_type (pointer p) = VarType.vt_pointer
v_type (string s) = VarType.vt_string
v_type (blob b) = VarType.vt_blob

abbrev pub v_name : Var → Option String
v_name (var name d) = name

abbrev pub same_type : VarType → VarType → Bool
same_type s t = type_rank s == type_rank t

-- `VAR_MAX_TYPE`
abbrev pub var_max_type : Data → Data → VarType
var_max_type l r = if ltb (type_rank (v_type r)) (type_rank (v_type l)) then v_type l else v_type r

-- `strtol` returns the number, and whether it sets `errno`; `var_dump_data` the text that it writes to a
-- buffer of 1024 bytes, if it fits; `blob_create` the blob of the data. A `double` is less than another
-- by `float_lt`.
pub record Casts : Type 0 where
  pub strtol : String → ℤ × Bool
  pub strtof : String → ℕ
  pub int_of_float : ℕ → ℤ
  pub float_of_int : ℤ → ℕ
  pub float_lt : ℕ → ℕ → Bool
  pub util_addrtoint : ℕ → ℤ
  pub util_addrcmp : ℕ → ℕ → ℤ
  pub var_dump_data : Data → Option String
  pub blob_create : Data → ℕ
  pub blob_compare : ℕ → ℕ → ℤ

-- `var_create` without data. A table or a list without data is of no use to any caller, and is left out.
abbrev pub no_data : VarType → Option Data
no_data VarType.vt_null = some null
no_data VarType.vt_table = none
no_data VarType.vt_list = none
no_data VarType.vt_addr = some (addr none)
no_data VarType.vt_int = some (int none)
no_data VarType.vt_float = some (float none)
no_data VarType.vt_pointer = some (pointer none)
no_data VarType.vt_string = some (string none)
no_data VarType.vt_blob = some (blob none)

-- `var_copy_data` copies no pointers, `var_copy_list_or_table` each item with its data.
unfoldable mutual
  pub copies : Data → Bool
  copies null = true
  copies (pointer none) = true
  copies (pointer (some p)) = false
  copies (table xs) = copies_items xs
  copies (list xs) = copies_items xs
  copies _ = true

  pub copies_items : Vars → Bool
  copies_items nil = true
  copies_items (cons (var name d) xs) = copies d && copies_items xs

-- `var_create` with `VF_COPY`, under another name or the same
unfoldable pub var_copy : Option String → Data → Option Var
unfolding copies
var_copy name d = if copies d then some (var name d) else none

module _ (c : Casts) where
  -- An arbitrary text is as long as it is, which is not 0.
  abbrev pub int_of_string : String → ℤ
  int_of_string s =
      let (i, errno) = c.strtol s in if errno && not (str_eq s "0") then pos (len s) else i

  -- The three functions `var_as_int`, `var_as_float` and `var_as_blob`
  unfoldable pub var_as_int : Data → Option Data
  var_as_int (float (some f)) = some (int (some (c.int_of_float f)))
  var_as_int (string (some s)) = some (int (some (int_of_string s)))
  var_as_int (addr (some a)) =
      if eqb_ℤ (c.util_addrtoint a) (negsuc 0) then none else some (int (some (c.util_addrtoint a)))
  var_as_int _ = none

  unfoldable pub var_as_float : Data → Option Data
  var_as_float (int (some i)) = some (float (some (c.float_of_int i)))
  var_as_float (string (some s)) = some (float (some (c.strtof s)))
  var_as_float _ = none

  unfoldable pub var_as_string : Data → Option Data
  var_as_string d = elim (c.var_dump_data d) [ none ↦ none | some s ↦ some (string (some s)) ]

  unfoldable pub var_as_blob : Data → Option Data
  var_as_blob (int (some i)) = some (blob (some (c.blob_create (int (some i)))))
  var_as_blob (float (some f)) = some (blob (some (c.blob_create (float (some f)))))
  var_as_blob (string (some s)) = some (blob (some (c.blob_create (string (some s)))))
  var_as_blob (addr (some a)) = some (blob (some (c.blob_create (addr (some a)))))
  var_as_blob _ = none

  -- The `switch` of `var_cast_copy`
  unfoldable pub cast_data : VarType → Data → Option Data
  unfolding var_as_int var_as_float var_as_string var_as_blob
  cast_data VarType.vt_int d = var_as_int d
  cast_data VarType.vt_float d = var_as_float d
  cast_data VarType.vt_string d = var_as_string d
  cast_data VarType.vt_blob d = var_as_blob d
  cast_data t d = none

  abbrev pub with_name : Option String → Option Data → Option Var
  with_name name none = none
  with_name name (some d) = some (var name d)

  unfoldable pub var_cast_copy : VarType → Var → Option Var
  unfolding var_copy cast_data
  var_cast_copy t (var name d) =
      if same_type t (v_type d)
      then var_copy name d
      else with_name name (if is_null d then no_data t else cast_data t d)

  -- `var_intval`: 0 where the cast fails
  unfoldable pub var_intval : Var → Result ℤ
  unfolding var_cast_copy
  var_intval v = elim (v_data v) [
    | int (some i) ↦ ok i
    | int none ↦ fail null_pointer
    | _ ↦ elim (var_cast_copy VarType.vt_int v) [
      | none ↦ ok (pos 0)
      | some u ↦ elim (as_int (v_data u)) [ none ↦ fail null_pointer | some i ↦ ok i ]
    ]
  ]
