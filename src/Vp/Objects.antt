-- ===== src/Vp/Objects.antt =====
-- Data of exactly one object: what comes behind it does not matter.
use mopher.Prelude.{
  ℕ, zero, suc, ◌≡◌, refl, true, Bool-cases, Option, some, List, [], ◌∷◌, ◌++◌, arith, Option-cases,
  inl, inr, leb, length, take, length-append, take-append, drop-append, take-append_le, take-all,
}
use mopher.Exec.{ok}
use mopher.Var.Cast.{VarType}
use mopher.Vp.{
  strlen, blob_t, string_size, copy_size, read, var_copy_data, var_data_size, vp_pack_data,
  unpack_data, ◌>>=◌,
}

strlen-append : (p q : List ℕ) {n : ℕ} → strlen p ≡ some n → strlen (p ++ q) ≡ some n
unfolding strlen
strlen-append [] q h = cc
strlen-append (zero ∷ p) q h = h
strlen-append (suc c ∷ p) q {n} h = elim (Option-cases (strlen p)) [
  | inl e ↦ cc (rw (e, strlen) at h)
  | inr (m, e) ↦ rw (strlen-append p q e) (rw e at h)
]

string_size-append : (p q : List ℕ) {n : ℕ} → string_size p ≡ ok n → string_size (p ++ q) ≡ ok n
unfolding string_size
string_size-append p q h = elim (Option-cases (strlen p)) [
  | inl e ↦ cc (rw (e, string_size) at h)
  | inr (m, e) ↦ rw (strlen-append p q e, string_size) (rw (e, string_size) at h)
]

blob_t-append : (p q : List ℕ) {n : ℕ} → blob_t p ≡ ok n → blob_t (p ++ q) ≡ ok n
unfolding blob_t
blob_t-append p q h = elim (Bool-cases (leb 8 (length p))) [
  | inl long ↦
      let longer : leb 8 (length (p ++ q)) ≡ true = ground (arith, length-append {0} p q) in
      let same : take 8 (p ++ q) ≡ take 8 p = take-append_le 8 p q (ground arith) in
      rw (longer, same) (rw long at h)
  | inr short ↦ cc (rw (short, blob_t) at h)
]

pub copy_size-append :
    (t : VarType) (p q : List ℕ) {n : ℕ} → copy_size t p ≡ ok n → copy_size t (p ++ q) ≡ ok n
unfolding copy_size
copy_size-append VarType.vt_string p q h = string_size-append p q h
copy_size-append VarType.vt_blob p q h = blob_t-append p q h
copy_size-append VarType.vt_int p q h = h
copy_size-append VarType.vt_float p q h = h
copy_size-append VarType.vt_addr p q h = h
copy_size-append VarType.vt_list p q h = cc
copy_size-append VarType.vt_table p q h = cc
copy_size-append VarType.vt_null p q h = cc
copy_size-append VarType.vt_pointer p q h = cc

data_size-copy_size :
    (t : VarType) (p : List ℕ) {n : ℕ} → copy_size t p ≡ ok n → var_data_size t p ≡ ok n
unfolding copy_size var_data_size
data_size-copy_size VarType.vt_string p h = h
data_size-copy_size VarType.vt_blob p h = h
data_size-copy_size VarType.vt_int p h = h
data_size-copy_size VarType.vt_float p h = h
data_size-copy_size VarType.vt_addr p h = h
data_size-copy_size VarType.vt_list p h = cc
data_size-copy_size VarType.vt_table p h = cc
data_size-copy_size VarType.vt_null p h = cc
data_size-copy_size VarType.vt_pointer p h = cc

-- The bytes are those of one variable of the type.
abbrev pub IsObject : VarType → List ℕ → Type 0
IsObject t p = copy_size t p ≡ ok (length p)

read-append : (p q : List ℕ) → read (length p) (p ++ q) ≡ ok p
unfolding read
read-append p q =
    let fits : leb (length p) (length (p ++ q)) ≡ true = ground (arith, length-append {0} p q) in
    rw (fits, take-append p q) refl

read_whole : (p : List ℕ) → read (length p) p ≡ ok p
unfolding read
read_whole p =
    let fits : leb (length p) (length p) ≡ true = ground arith in
    rw (fits, take-all (length p) p (omega arith)) refl

pub unpack_data-append :
    (t : VarType) (p q : List ℕ) → IsObject t p → unpack_data t (p ++ q) ≡ ok (p, q)
unfolding unpack_data var_copy_data
unpack_data-append t p q h =
    rw (copy_size-append t p q h, read-append p q, data_size-copy_size t p h, drop-append p q) refl

read_data : (t : VarType) (p : List ℕ) → IsObject t p → (var_data_size t p >>= λ n. read n p) ≡ ok p
read_data t p h = rw (data_size-copy_size t p h, read_whole p) refl

pub pack_data-IsObject :
    (dump : List ℕ → Option (List ℕ)) (t : VarType) (p : List ℕ)
    → IsObject t p
    → vp_pack_data dump t p ≡ ok p
unfolding vp_pack_data copy_size
pack_data-IsObject dump VarType.vt_string p h = read_data VarType.vt_string p h
pack_data-IsObject dump VarType.vt_blob p h = read_data VarType.vt_blob p h
pack_data-IsObject dump VarType.vt_int p h = read_data VarType.vt_int p h
pack_data-IsObject dump VarType.vt_float p h = read_data VarType.vt_float p h
pack_data-IsObject dump VarType.vt_addr p h = read_data VarType.vt_addr p h
pack_data-IsObject dump VarType.vt_list p h = cc
pack_data-IsObject dump VarType.vt_table p h = cc
pack_data-IsObject dump VarType.vt_null p h = cc
pack_data-IsObject dump VarType.vt_pointer p h = cc
