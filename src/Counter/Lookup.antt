-- ===== src/Counter/Lookup.antt =====
-- What a symbol of a counter is in the mailspec after `counter_lookup`.
use mopher.Prelude.{
  String, true, false, ◌≡◌, refl, ap, sym, ◌∙◌, Option, none, some, List, [], ◌∷◌, arith, str_eq,
  eq_iff, eq_refl, if◌then◌else◌, Bool-cases, inl, inr, ◌⊎◌,
}
use mopher.Prelude.Int.{ℤ, pos, eqb_ℤ}
use mopher.Var.{Data, Vars, int}
use mopher.Vtable.{vtable_get, vtable_set_null, vtable_is_null}
use mopher.Vtable.Laws.{get-set_new}
use mopher.Exec.{Result, ok, continue, ◌>>=◌}
use mopher.Stage.{Stage, is_envrcpt}
use mopher.Counter.Scheme.{
  Counter, relay, origin, domain, penpal, Tuple, name_of, keys, values, Driver, lookup_key,
  load_value, load_values, or_null,
}
use mopher.Counter.{
  dbt_db_get_from_table, dbt_db_load_into_table, Databases, db_of, before_load, counter_named,
  unless_lost, counter_lookup,
}

-- What `vtable_get` returns for a number
abbrev pub number : Option ℤ → Option Data
number none = none
number (some n) = some (int (some n))

set-number :
    (m : Vars) (name j : String) (d : Option ℤ)
    → vtable_get (load_value name d m) j ≡ (
        if vtable_is_null m name
        then (if str_eq name j then number d else vtable_get m j)
        else vtable_get m j)
unfolding load_value
set-number m name j none = ground (arith, get-set_new m name j (int none))
set-number m name j (some n) = ground (arith, get-set_new m name j (int (some n)))

value-set :
    (m : Vars) (name : String) (d : Option ℤ)
    → vtable_get m name ≡ none
    → vtable_get (load_value name d m) name ≡ number d
unfolding vtable_is_null
value-set m name d h = ground (arith, set-number m name name d, eq_refl name)

value-ne :
    (m : Vars) (name j : String) (d : Option ℤ)
    → str_eq name j ≡ false
    → vtable_get (load_value name d m) j ≡ vtable_get m j
value-ne m name j d h = ground (arith, set-number m name j d)

value-keeps :
    (m : Vars) (name j : String) (d : Option ℤ) (e : Data)
    → vtable_get m j ≡ some e
    → vtable_get (load_value name d m) j ≡ some e
unfolding vtable_is_null
value-keeps m name j d e h = ground (arith, set-number m name j d, eq_iff name j)

values-keep :
    (vs : List (String × Option ℤ)) (m : Vars) (j : String) (e : Data)
    → vtable_get m j ≡ some e
    → vtable_get (load_values vs m) j ≡ some e
unfolding load_values
values-keep [] m j e h = h
values-keep ((name, d) ∷ vs) m j e h =
    values-keep vs (load_value name d m) j e (value-keeps m name j d e h)

values-last :
    (m : Vars) (a b c k : String) (d e f g : Option ℤ)
    → str_eq a k ≡ false
    → str_eq b k ≡ false
    → str_eq c k ≡ false
    → vtable_get m k ≡ none
    → vtable_get (load_values ((a, d) ∷ (b, e) ∷ (c, f) ∷ (k, g) ∷ []) m) k ≡ number g
unfolding load_values
values-last m a b c k d e f g ha hb hc h =
    let m1 = load_value a d m in
    let m2 = load_value b e m1 in
    let m3 = load_value c f m2 in
    value-set m3 k g (value-ne m2 c k f hc ∙ value-ne m1 b k e hb ∙ value-ne m a k d ha ∙ h)

-- The last of the values is the count.
values-count :
    (c : Counter) (m : Vars) (t : Tuple)
    → vtable_get m (name_of c) ≡ none
    → vtable_get (load_values (values c t) m) (name_of c) ≡ number t.count
values-count relay m t h = values-last m _ _ _ _ _ _ _ _ refl refl refl h
values-count origin m t h = values-last m _ _ _ _ _ _ _ _ refl refl refl h
values-count domain m t h = values-last m _ _ _ _ _ _ _ _ refl refl refl h
values-count penpal m t h = values-last m _ _ _ _ _ _ _ _ refl refl refl h

-- The count of a record, and NULL where there is none
abbrev pub count_of : Option Tuple → Option ℤ
count_of none = none
count_of (some t) = t.count

or_null-count_of : (o : Option Tuple) → (or_null o).count ≡ count_of o
or_null-count_of none = refl
or_null-count_of (some t) = refl

-- The call returns 0, the symbol is the count of the record, or NULL where there is none, and data that the
-- mailspec had is kept.
abbrev pub Loaded : Counter → Option Tuple → Vars → Result ℤ × Vars → Type 0
Loaded c o m p =
    (p.0 ≡ ok (pos 0))
    × (vtable_get p.1 (name_of c) ≡ number (count_of o))
    × ((j : String) (e : Data) → vtable_get m j ≡ some e → vtable_get p.1 j ≡ some e)

module _ (driver : Driver) where
  open driver use {Db, get}

  load_into_table-Loaded :
      (c : Counter) (db : Db) (m : Vars) (key : List String) (o : Option Tuple)
      → lookup_key (keys c) m ≡ ok (some key)
      → get db key ≡ some o
      → vtable_get m (name_of c) ≡ none
      → Loaded c o m (dbt_db_load_into_table driver c db m)
  unfolding dbt_db_load_into_table dbt_db_get_from_table
  load_into_table-Loaded c db m key o h g unset =
      rw (dbt_db_load_into_table, dbt_db_get_from_table, h, g)
        (
          refl,
          values-count c m (or_null o) unset ∙ ap number (or_null-count_of o),
          values-keep (values c (or_null o)) m,
        )

  -- The symbol is the one of a recipient's stage, or the recipients are a number.
  abbrev pub MayLoad : Counter → Stage → Vars → Type 0
  MayLoad penpal stage m =
      (is_envrcpt stage ≡ true) ⊎ ((n : ℤ) × (vtable_get m "recipients" ≡ some (int (some n))))
  MayLoad c stage m = Unit

  -- What `before_load` returns, and what the mailspec then still has
  abbrev Prepared : Counter → Vars → Result ℤ × Vars → Type 0
  Prepared c m p =
      (p.0 ≡ ok (pos 0))
      × (lookup_key (keys c) p.1 ≡ lookup_key (keys c) m)
      × (vtable_get p.1 (name_of c) ≡ vtable_get m (name_of c))
      × ((j : String) (e : Data) → vtable_get m j ≡ some e → vtable_get p.1 j ≡ some e)

  unset-Prepared :
      (m : Vars)
      → vtable_get m "counter_penpal" ≡ none
      → Prepared penpal m (ok (pos 0), vtable_set_null m "counter_penpal")
  unfolding lookup_key vtable_set_null
  unset-Prepared m unset =
      let nulled = λ (j : String). get-set_new m "counter_penpal" j (int none) in
      (
        refl,
        rw (nulled "origin", nulled "envfrom_addr", nulled "envrcpt_addr"),
        nulled "counter_penpal" ∙ sym unset,
        λ j e h.
            ground (arith, get-set_new m "counter_penpal" j (int none), eq_iff "counter_penpal" j),
      )

  prepared :
      (c : Counter) (stage : Stage) (m : Vars)
      → MayLoad c stage m
      → vtable_get m (name_of c) ≡ none
      → Prepared c m (before_load driver c stage (name_of c) m)
  unfolding before_load
  prepared relay stage m may unset = (refl, refl, refl, λ j e h. h)
  prepared origin stage m may unset = (refl, refl, refl, λ j e h. h)
  prepared domain stage m may unset = (refl, refl, refl, λ j e h. h)
  prepared penpal stage m (inl here) unset = rw here (refl, refl, refl, λ j e h. h)
  prepared penpal stage m (inr (n, h)) unset = elim (Bool-cases (is_envrcpt stage)) [
    | inl here ↦ rw here (refl, refl, refl, λ j e h. h)
    | inr later ↦
        rw (later, h)
          (elim (Bool-cases (eqb_ℤ n (pos 1))) [
            | inl one ↦ rw one (refl, refl, refl, λ j e h. h)
            | inr many ↦ rw many (unset-Prepared m unset)
          ])
  ]

  named : (c : Counter) → counter_named driver (name_of c) ≡ c
  unfolding counter_named
  named relay = refl
  named origin = refl
  named domain = refl
  named penpal = refl

  lookup-Loaded :
      (c : Counter) (s : Databases driver) (stage : Stage) (m : Vars) (key : List String)
      (o : Option Tuple)
      → vtable_is_null m "hostaddr_str" ≡ false
      → MayLoad c stage m
      → lookup_key (keys c) m ≡ ok (some key)
      → get (db_of driver c s) key ≡ some o
      → vtable_get m (name_of c) ≡ none
      → Loaded c o m (counter_lookup driver s stage (name_of c) m)
  unfolding counter_lookup
  lookup-Loaded c s stage m key o known may h g unset =
      let (zero_returned, same_key, same_value, same) = prepared c stage m may unset in
      let m1 = (before_load driver c stage (name_of c) m).1 in
      let (r, count, more) =
        load_into_table-Loaded c (db_of driver c s) m1 key o (same_key ∙ h) g
          (same_value ∙ unset) in
      rw (known, named c, ◌>>=◌, zero_returned, continue, unless_lost)
        (r, count, λ j e h. more j e (same j e h))

  -- The symbol stands for one recipient: it is none of penpal's, the stage is that of a recipient, or the
  -- message has one.
  abbrev pub HasOneMeaning : Counter → Stage → Vars → Type 0
  HasOneMeaning penpal stage m =
      (is_envrcpt stage ≡ true) ⊎ (vtable_get m "recipients" ≡ some (int (some (pos 1))))
  HasOneMeaning c stage m = Unit

  may_load : (c : Counter) (stage : Stage) (m : Vars) → HasOneMeaning c stage m → MayLoad c stage m
  may_load relay stage m h = tt
  may_load origin stage m h = tt
  may_load domain stage m h = tt
  may_load penpal stage m (inl here) = inl here
  may_load penpal stage m (inr one) = inr (pos 1, one)

  -- For a client with an address, a symbol without data and a key that the mailspec has and the driver
  -- answers, with a record or with none, where the symbol of a sender and a recipient is looked up in
  -- the stage of a recipient or for a message with one recipient: the lookup returns 0, the symbol is
  -- the count of the record, or NULL where there is none, and data that the mailspec had stays.
  pub counter_lookup-Loaded :
      (c : Counter) (s : Databases driver) (stage : Stage) (m : Vars) (key : List String)
      (o : Option Tuple)
      → vtable_is_null m "hostaddr_str" ≡ false
      → HasOneMeaning c stage m
      → lookup_key (keys c) m ≡ ok (some key)
      → get (db_of driver c s) key ≡ some o
      → vtable_get m (name_of c) ≡ none
      → Loaded c o m (counter_lookup driver s stage (name_of c) m)
  counter_lookup-Loaded c s stage m key o known one h g unset =
      lookup-Loaded c s stage m key o known (may_load c stage m one) h g unset

  -- In a stage other than that of a recipient, for a message whose number of recipients is not 1, a
  -- client with an address, a symbol counter_penpal without data, and a key that the mailspec has and
  -- the driver finds a record with a count for: after the lookup the symbol is that count, although
  -- the code has logged it as ambiguous and set it to NULL.
  pub counter_lookup-not_nulled :
      (s : Databases driver) (stage : Stage) (m : Vars) (key : List String) (t : Tuple) (n k : ℤ)
      → vtable_is_null m "hostaddr_str" ≡ false
      → is_envrcpt stage ≡ false
      → vtable_get m "recipients" ≡ some (int (some n))
      → eqb_ℤ n (pos 1) ≡ false
      → lookup_key (keys penpal) m ≡ ok (some key)
      → get s.counter_penpal key ≡ some (some t)
      → t.count ≡ some k
      → vtable_get m "counter_penpal" ≡ none
      → vtable_get (counter_lookup driver s stage "counter_penpal" m).1 "counter_penpal"
        ≡ some (int (some k))
  counter_lookup-not_nulled s stage m key t n k known later several many h g count unset =
      let (returned, loaded, rest) =
        lookup-Loaded penpal s stage m key (some t) known (inr (n, several)) h g unset in
      loaded ∙ ap number count
