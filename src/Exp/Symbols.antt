-- ===== src/Exp/Symbols.antt =====
-- What an expression reads (src/acl.c, and the macros of src/milter.c): symbols, functions and variables.
-- A function with arguments gets the list of their values.
use Prim.Native.Char.{code}
use mopher.Prelude.{String, Bool, true, false, Option, none, some, List, ◌==◌, if◌then◌else◌}
use mopher.Prelude.Int.{ℤ}
use mopher.Exec.{Exec, ok, fail, undefined, pure, ◌>>=◌}
use mopher.Var.{Data, Var, Vars, table, var, nil, v_data, as_int}
use mopher.Var.Cast.{VarType, var_copy, copies}
use mopher.Vtable.{vtable_lookup, vtable_get, vtable_set_null, vtable_set_new}
use mopher.Exp.{Operators, Value}

-- `acl_symbol_t` for constants and symbols: its stages are a test of the bits of a stage. A callback gets
-- the stage and the mailspec, and says whether it succeeded.
pub data AclSymbol : Type 0 where
  acl_constant : (ℤ → Bool) → Var → AclSymbol
  acl_symbol : (ℤ → Bool) → Bool → Option (ℤ → Vars → Bool × Vars) → AclSymbol
  acl_other : (ℤ → Bool) → AclSymbol

-- `acl_function_t`: a simple function has types for its arguments, and gets their data.
pub data AclFunction : Type 0 where
  simple : List VarType → (List Data → Option Var) → AclFunction
  complex : (Vars → Option Var) → AclFunction

-- What the rest of the program registers: `sht_lookup` of `acl_symbols`, and the functions in it. The
-- macros of the mail server are read by `smfi_getsymval`, by `milter_macro_lookup` if the mailspec has the
-- context and the name of the stage.
pub record Registry : Type 0 where
  pub operators : Operators
  pub acl_symbols : String → Option AclSymbol
  pub acl_functions : String → Option AclFunction
  pub smfi_getsymval : String → Option String

-- `*name == '$'`: the name of a variable without the signs before it
abbrev pub without_sign : String → String
without_sign String.[] = ""
without_sign (String.◌∷◌ c s) =
    let rest = without_sign s in if code c == b'$' then rest else String.◌∷◌ c s

-- An evaluation: a value, or NULL, and the mailspec after it
abbrev pub Eval : Type 0
Eval = Exec Vars (Option Var)

abbrev pub lift : Value → Eval
lift v m = (v, m)

-- `acl_variables`: the table is put into the mailspec at the first use. A record of that name that is no
-- table would be read as one.
unfoldable pub acl_variables : Exec Vars Vars
unfolding vtable_lookup vtable_set_new
acl_variables m = elim (vtable_lookup m "VARIABLES") [
  | none ↦ (ok nil, vtable_set_new m "VARIABLES" (table nil))
  | some (var name (table vs)) ↦ (ok vs, m)
  | some v ↦ (fail undefined, m)
]

-- `false` is -1. The copy of the value gets the name of the variable.
unfoldable pub acl_variable_assign : String → Var → Exec Vars Bool
unfolding acl_variables var_copy vtable_set_new
acl_variable_assign name value = do
  vs ← acl_variables
  λ m.
      if copies (v_data value)
      then (
        ok true,
        vtable_set_new m "VARIABLES" (table (vtable_set_new vs (without_sign name) (v_data value))),
      )
      else (ok false, m)

unfoldable pub acl_variable_get : String → Eval
unfolding acl_variables vtable_lookup
acl_variable_get name = do vs ← acl_variables; pure (vtable_lookup vs (without_sign name))

-- `acl_symbol_get` after its tests: a value that the mailspec has, or what a callback puts there.
unfoldable pub symbol_value : String → ℤ → Bool → Option (ℤ → Vars → Bool × Vars) → Eval
unfolding vtable_lookup vtable_set_null
symbol_value name stage cached none m = elim (if cached then vtable_lookup m name else none) [
  | some v ↦ (ok (some v), m)
  | none ↦ (ok (vtable_lookup (vtable_set_null m name) name), vtable_set_null m name)
]
symbol_value name stage cached (some callback) m =
    elim (if cached then vtable_lookup m name else none) [
      | some v ↦ (ok (some v), m)
      | none ↦
          let (done, m') = callback stage m in
          (ok (if done then vtable_lookup m' name else none), m')
    ]

unfoldable pub symbol_at : String → ℤ → AclSymbol → Eval
unfolding symbol_value
symbol_at name stage (acl_constant stages v) = if stages stage then pure (some v) else pure none
symbol_at name stage (acl_symbol stages cached callback) =
    if stages stage then symbol_value name stage cached callback else pure none
symbol_at name stage (acl_other stages) = pure none

module _ (r : Registry) where
  open r use {operators, acl_symbols, acl_functions, smfi_getsymval}

  unfoldable pub acl_symbol_get : String → Eval
  unfolding symbol_at vtable_get
  acl_symbol_get name m = elim (acl_symbols name) [
    | none ↦ (ok none, m)
    | some s ↦ elim (vtable_get m "stage") [
      | none ↦ (ok none, m)
      | some d ↦ elim (as_int d) [
        | none ↦ (fail undefined, m)
        | some stage ↦ symbol_at name stage s m
      ]
    ]
  ]

  -- `acl_symbol_dereference` of the context and the name of the stage: a symbol that fails counts.
  unfoldable pub milter_macro_lookup : String → Exec Vars (Option String)
  unfolding acl_symbol_get
  milter_macro_lookup name = do
    ctx ← acl_symbol_get "milter_ctx"
    stagename ← acl_symbol_get "stagename"
    elim ctx [
      | none ↦ pure none
      | some c ↦ elim stagename [ none ↦ pure none | some s ↦ pure (smfi_getsymval name) ]
    ]
