-- ===== src/Memdb/Janitor/Steps.antt =====
-- One step of a cleanup of a database in memory, and its loop.
use mopher.Prelude.{
  ℕ, zero, suc, ◌+◌, ◌<◌, ◌≡◌, refl, sym, ap, ◌∙◌, String, Bool, true, false, Option, none, some,
  List, [], ◌∷◌, arith, Bool-cases, inl, inr, if◌then◌else◌, length,
}
use mopher.Prelude.Int.{ℤ, ltb_ℤ}
use mopher.Exec.{Result, ok, fail}
use mopher.Ht.{Hashing, Load, Pos, ht_remove, ht_next}
use mopher.Ht.Walk.{remaining}
use mopher.Ht.Sweep.{All, IsHome, dispose, dispose_each, next-remaining, ht_remove-congr}
use mopher.Vp.{Record, vp_unpack}
use mopher.Memdb.{Packed, Table, memdb_hashing, pack, memdb_del, walk_from, key-match}
use mopher.Memdb.Map.{IsPack, pack-IsOf, unpack-IsOf}
use mopher.Memdb.Janitor.{
  Database, vlist_record_get, read_long, dbt_common_validate, dbt_janitor_validate,
}

-- The expiry of a record
abbrev pub Expires : String → Record → ℤ → Type 0
Expires field r e = (p : List ℕ) × ((vlist_record_get r field ≡ ok (some p)) × (read_long p ≡ ok e))

validate-Expires :
    (schedule : ℤ) (field : String) (r : Record) (e : ℤ)
    → Expires field r e
    → dbt_common_validate schedule field r ≡ ok (if ltb_ℤ e schedule then false else true)
unfolding dbt_common_validate
validate-Expires schedule field r e (p, (found, number)) = rw (found, number) refl

-- Whether a record is expired at a time
abbrev pub expired : (Record → ℤ) → ℤ → Record → Bool
expired expiry schedule r = ltb_ℤ (expiry r) schedule

abbrev pub pack_expired : (scheme : Record) → (Record → ℤ) → ℤ → Packed scheme → Bool
pack_expired scheme expiry schedule d = elim (vp_unpack d.vp scheme) [
  | fail e ↦ false
  | ok r ↦ expired expiry schedule r
]

abbrev pub one_if : Bool → ℕ
one_if b = if b then 1 else 0

abbrev pub expired_count : (scheme : Record) → (Record → ℤ) → ℤ → List (Packed scheme) → ℕ
expired_count scheme expiry schedule [] = 0
expired_count scheme expiry schedule (d ∷ ds) =
    one_if (pack_expired scheme expiry schedule d) + expired_count scheme expiry schedule ds

abbrev pub unexpired : (Record → ℤ) → ℤ → Option Record → Option Record
unexpired expiry schedule none = none
unexpired expiry schedule (some r) = if expired expiry schedule r then none else some r

module _ (scheme : Record) (dump : List ℕ → Option (List ℕ)) (overloaded : Load) (schedule : ℤ)
    (field : String) (expiry : Record → ℤ) where
  abbrev hashing : Hashing (Packed scheme)
  hashing = memdb_hashing scheme

  abbrev stale : Packed scheme → Bool
  stale = pack_expired scheme expiry schedule

  -- A packed record of the scheme that has its expiry
  abbrev pub IsDated : Packed scheme → Type 0
  IsDated d = (p : IsPack scheme dump overloaded d) × Expires field p.0 (expiry p.0)

  abbrev pub IsSetUp : Database scheme → Type 0
  IsSetUp s = (s.dbt_cleanup_schedule ≡ schedule) × (s.dbt_expire_field ≡ field)

  -- One call for the record that the walk is at
  abbrev Disposed : Database scheme → Packed scheme → Record → Type 0
  Disposed s d r =
      (s' : Database scheme) × ((dbt_janitor_validate scheme dump overloaded s r ≡ (ok tt, s'))
        × (s'.dbt_handle ≡ dispose hashing stale s.dbt_handle d)
        × (s'.dbt_cleanup_deleted ≡ s.dbt_cleanup_deleted + one_if (stale d))
        × IsSetUp s')

  validate-dated :
      (since : ℤ) (name : String) (r : Record)
      → since ≡ schedule
      → name ≡ field
      → Expires field r (expiry r)
      → dbt_common_validate since name r ≡ ok (if expired expiry schedule r then false else true)
  validate-dated since name r e e' dated =
      rw (e, e') (validate-Expires schedule field r (expiry r) dated)

  del-packed :
      (t : Table scheme) (r : Record) (a : Packed scheme)
      → pack scheme dump overloaded r ≡ ok a
      → memdb_del scheme dump overloaded t r ≡ (ok tt, ht_remove hashing t a)
  unfolding memdb_del
  del-packed t r a packed = rw (packed, memdb_del) refl

  judge :
      (s : Database scheme) (r : Record) (a : Packed scheme)
      → dbt_common_validate s.dbt_cleanup_schedule s.dbt_expire_field r ≡ ok false
      → memdb_del scheme dump overloaded s.dbt_handle r ≡ (ok tt, ht_remove hashing s.dbt_handle a)
      → dbt_janitor_validate scheme dump overloaded s r ≡ (
        ok tt,
        record s {
          dbt_handle = ht_remove hashing s.dbt_handle a;
          dbt_cleanup_deleted = suc s.dbt_cleanup_deleted;
        },
      )
  unfolding dbt_janitor_validate
  judge s r a checks gone = rw (checks, gone, dbt_janitor_validate) refl

  spare :
      (s : Database scheme) (r : Record)
      → dbt_common_validate s.dbt_cleanup_schedule s.dbt_expire_field r ≡ ok true
      → dbt_janitor_validate scheme dump overloaded s r ≡ (ok tt, s)
  unfolding dbt_janitor_validate
  spare s r checks = rw (checks, dbt_janitor_validate) refl

  validate-dispose :
      (s : Database scheme) (d : Packed scheme) (p : IsDated d) → IsSetUp s → Disposed s d p.0.0
  validate-dispose s d ((r, (h, same)), dated) (sched, name) =
      let unpacks = unpack-IsOf scheme dump overloaded r d h same in
      let checks = validate-dated s.dbt_cleanup_schedule s.dbt_expire_field r sched name dated in
      let (a, (packed, key)) = pack-IsOf scheme dump overloaded r h in
      let gone : ht_remove hashing s.dbt_handle a ≡ ht_remove hashing s.dbt_handle d =
        ht_remove-congr hashing s.dbt_handle a d
          (key-match scheme a d (ap (λ v. v.vp_key) (key ∙ sym same))) in
      elim (Bool-cases (expired expiry schedule r)) [
        | inl y ↦
            let judged : stale d ≡ true = rw (unpacks, pack_expired) y in
            (
              record s {
                dbt_handle = ht_remove hashing s.dbt_handle a;
                dbt_cleanup_deleted = suc s.dbt_cleanup_deleted;
              },
              (
                judge s r a (rw y at checks) (del-packed s.dbt_handle r a packed),
                rw judged gone,
                rw judged (omega arith),
                (sched, name),
              ),
            )
        | inr n ↦
            let judged : stale d ≡ false = rw (unpacks, pack_expired) n in
            (
              s,
              (spare s r (rw n at checks), rw judged refl, rw judged (omega arith), (sched, name)),
            )
      ]

  abbrev pub walk :
      ℕ → Database scheme → Pos (Packed scheme) → Option (Result (Unit {0}) × Database scheme)
  walk =
      walk_from scheme (λ (s : Database scheme). s.dbt_handle)
        (dbt_janitor_validate scheme dump overloaded)

  -- The loop ends and disposes of what it meets.
  abbrev pub Swept : ℕ → Database scheme → Table scheme → Pos (Packed scheme) → Type 0
  Swept n s t p =
      (s' : Database scheme) × ((walk n s p ≡ some (ok tt, s'))
        × (s'.dbt_handle ≡ dispose_each hashing stale (remaining hashing t p) t)
        × (s'.dbt_cleanup_deleted
            ≡ s.dbt_cleanup_deleted + expired_count scheme expiry schedule (remaining hashing t p)))

  walk_step :
      (n : ℕ) (s s' : Database scheme) (b : ℕ) (x : Packed scheme) (xs : List (Packed scheme))
      (r : Record)
      → vp_unpack x.vp scheme ≡ ok r
      → dbt_janitor_validate scheme dump overloaded s r ≡ (ok tt, s')
      → walk (suc n) s (b, x ∷ xs) ≡ walk n s' (ht_next hashing s.dbt_handle (b, x ∷ xs)).1
  unfolding walk_from ht_next
  walk_step n s s' b x xs r unpacks done = rw (unpacks, done, walk_from) refl

  pub walk_from-dispose_each :
      (n : ℕ) (s : Database scheme) (t : Table scheme) (p : Pos (Packed scheme))
      → s.dbt_handle ≡ t
      → IsSetUp s
      → All IsDated (remaining hashing t p)
      → IsHome hashing t p
      → length (remaining hashing t p) < n
      → Swept n s t p
  unfolding walk_from ht_next
  walk_from-dispose_each zero s t p e up dated home enough = absurd (omega arith)
  walk_from-dispose_each (suc n) s t (b, []) e up dated home enough = (s, (refl, e, omega arith))
  walk_from-dispose_each (suc n) s t (b, x ∷ xs) e up dated home enough =
      let (((r, (h, same)), expires), others) = dated in
      let (s', (done, handle, count, up')) = validate-dispose s x dated.0 up in
      let t' = dispose hashing stale t x in
      let p' = (ht_next hashing t (b, x ∷ xs)).1 in
      let (home', left) = next-remaining hashing stale t b x xs home in
      let ready : s'.dbt_handle ≡ t' = handle ∙ ap (λ t. dispose hashing stale t x) e in
      let dated' : All IsDated (remaining hashing t' p') = rw left others in
      let enough' : length (remaining hashing t' p') < n = rw left (omega arith) in
      let (s'', (walked, swept, total)) =
        walk_from-dispose_each n s' t' p' ready up' dated' home' enough' in
      let step =
        walk_step n s s' b x xs r (unpack-IsOf scheme dump overloaded r x h same) done
        ∙ ap (λ t. walk n s' (ht_next hashing t (b, x ∷ xs)).1) e in
      let rest = rw left at total in
      let summed : s''.dbt_cleanup_deleted
          ≡ s.dbt_cleanup_deleted
            + expired_count scheme expiry schedule (remaining hashing t (b, x ∷ xs)) =
        omega (arith, rest, count) in
      (s'', (step ∙ walked, swept ∙ (rw left refl), summed))
