-- ===== src/Var.antt =====
-- Variables (src/var.c, src/include/var.h): a type with nullable data, and a name. The constructors
-- of `Data` are the constants of `var_type_t`; `none` is a NULL `v_data`. A list holds its items in
-- order, and a table holds its records in an order that no client sees (a hash table). Addresses and
-- the bits of a `double` are kept as numbers. The flags of a `var_t` say who frees what, and are not
-- modelled.
pub mod Cast
pub mod Compare
use mopher.Prelude.{
  ℕ, ◌%◌, ◌^◌, String, Bool, true, false, not, Option, none, some, ◌==◌, str_eq, if◌then◌else◌,
}
use mopher.Prelude.Int.{ℤ, pos, eqb_ℤ}

mutual
  pub data Data : Type 0 where
    null : Data
    table : Vars → Data
    list : Vars → Data
    addr : Option ℕ → Data
    int : Option ℤ → Data
    float : Option ℕ → Data
    pointer : Option ℕ → Data
    string : Option String → Data
    blob : Option ℕ → Data

  pub data Var : Type 0 where
    var : Option String → Data → Var

  pub data Vars : Type 0 where
    nil : Vars
    cons : Var → Vars → Vars

abbrev pub v_data : Var → Data
v_data (var name d) = d

-- `v->v_data == NULL`
abbrev pub is_null : Data → Bool
is_null null = true
is_null (addr none) = true
is_null (int none) = true
is_null (float none) = true
is_null (pointer none) = true
is_null (string none) = true
is_null (blob none) = true
is_null _ = false

-- Reads of `v_data` at the type that the code casts it to. Data of another type is never read so.
abbrev pub as_string : Data → Option String
as_string (string s) = s
as_string _ = none

abbrev pub as_int : Data → Option ℤ
as_int (int i) = i
as_int _ = none

abbrev pub as_list : Data → Option Vars
as_list (list xs) = some xs
as_list _ = none

abbrev pub has_items : Vars → Bool
has_items nil = false
has_items (cons x xs) = true

-- `var_true`. The number of an address stands for its bytes, 0 for the unspecified address that
-- `util_addrcmp` compares with; that of a blob stands for its bytes, 0 for a blob whose size is 0. A
-- `double` is zero if all its bits but the sign are.
unfoldable pub var_true : Var → Bool
var_true (var name null) = false
var_true (var name (table xs)) = has_items xs
var_true (var name (list xs)) = has_items xs
var_true (var name (addr (some a))) = not (a == 0)
var_true (var name (int (some i))) = not (eqb_ℤ i (pos 0))
var_true (var name (float (some bits))) = not (bits % 2 ^ 63 == 0)
var_true (var name (pointer (some p))) = not (p == 0)
var_true (var name (string (some s))) = if str_eq s "0" then false else not (str_eq s "")
var_true (var name (blob (some size))) = not (size == 0)
var_true (var name _) = false
