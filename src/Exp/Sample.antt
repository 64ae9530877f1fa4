-- ===== src/Exp/Sample.antt =====
-- A registry of one constant, one symbol with a callback and one simple function, as data for tests.
use Prim.Native.Nat.{◌+◌}
use Prim.Native.String.{len}
use mopher.Prelude.{
  ℕ, String, Bool, true, false, Option, none, some, List, [], ◌∷◌, ltb, ◌==◌, str_eq, if◌then◌else◌,
}
use mopher.Prelude.Int.{ℤ, pos, abs}
use mopher.Var.{Data, Var, Vars, nil, cons, var, int, string, is_null}
use mopher.Var.Cast.{VarType, Casts}
use mopher.Vtable.{vtable_set_new}
use mopher.Exp.{Operators}
use mopher.Exp.Symbols.{Registry, AclSymbol, AclFunction, acl_symbol, simple}

-- Every text reads as the number 0, an address is its number, and a number is dumped as `n`.
abbrev pub casts : Casts
casts = record {
  strtol = λ s. (pos 0, true);
  strtof = λ s. 0;
  int_of_float = pos;
  float_of_int = abs;
  float_lt = ltb;
  util_addrtoint = pos;
  util_addrcmp = λ a b. if a == b then pos 0 else pos 1;
  var_dump_data = λ d. if is_null d then none else some "n";
  blob_create = λ d. 1;
  blob_compare = λ a b. if a == b then pos 0 else pos 1;
}

-- The one pattern is `spam`, which texts of four bytes match.
abbrev pub operators : Operators
operators = record {
  casts = casts;
  float_math = λ op a b. a + b;
  regexec = λ icase pattern s. if str_eq pattern "spam" then some (len s == 4) else none;
  util_addr_prefix = λ a n. a;
}

-- A callback that puts its number of recipients into the mailspec
abbrev set_recipients : ℤ → Vars → Bool × Vars
set_recipients stage m = (true, vtable_set_new m "recipients" (int (some (pos 2))))

abbrev always : ℤ → Bool
always stage = true

abbrev pub symbols : String → Option AclSymbol
symbols name =
    if str_eq name "recipients" then some (acl_symbol always false (some set_recipients)) else none

-- A function of one number and one text, which returns the text
abbrev pub second : List Data → Option Var
second (x ∷ y ∷ []) = some (var none y)
second _ = none

abbrev pub functions : String → Option AclFunction
functions name =
    if str_eq name "second"
    then some (simple (VarType.vt_int ∷ VarType.vt_string ∷ []) second)
    else none

abbrev pub registry : Registry
registry = record {
  operators = operators;
  acl_symbols = symbols;
  acl_functions = functions;
  smfi_getsymval = λ name. if str_eq name "i" then some "3A1B" else none;
}

abbrev pub stage_set : Vars
stage_set = cons (var (some "stage") (int (some (pos 4)))) nil

abbrev pub number : ℕ → Var
number n = var none (int (some (pos n)))

abbrev pub word : String → Var
word s = var none (string (some s))
