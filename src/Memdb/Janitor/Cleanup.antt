-- ===== src/Memdb/Janitor/Cleanup.antt =====
-- What a cleanup leaves of a database in memory.
use mopher.Prelude.{
  ℕ, ◌≤◌, ◌<◌, ◌≡◌, refl, sym, ap, ◌∙◌, String, Bool, true, false, Option, none, some, List, [],
  ◌∷◌, arith, Bool-cases, inl, inr, length,
}
use mopher.Prelude.Int.{ℤ}
use mopher.Exec.{ok}
use mopher.Ht.{Hashing, Load, flatten, ht_lookup, ht_start}
use mopher.Ht.Place.{Holds-lookup, first_of, same-reads}
use mopher.Ht.Insert.{hits-flatten}
use mopher.Ht.Walk.{IsWalkable, start-remaining}
use mopher.Ht.Sweep.{hits-match, All, All-hits, start-IsHome, dispose_each, disposed-Holds, fresh}
use mopher.Vp.{Record}
use mopher.Vp.Round.{keys_of}
use mopher.Memdb.{
  Packed, Table, memdb_hashing, memdb_record_match, unpacked, memdb_get, memdb_walk, key-match,
}
use mopher.Memdb.Map.{IsPack, Represents, pack-IsOf, unpack-IsOf}
use mopher.Memdb.Janitor.Steps.{Expires, expired, pack_expired, expired_count, unexpired}
use mopher.Memdb.Janitor.Steps
use mopher.Memdb.Janitor.{Database, dbt_janitor_cleanup_walk}

module _ (scheme : Record) (dump : List ℕ → Option (List ℕ)) (overloaded : Load) (schedule : ℤ)
    (field : String) (expiry : Record → ℤ) where
  abbrev hashing : Hashing (Packed scheme)
  hashing = memdb_hashing scheme

  abbrev stale : Packed scheme → Bool
  stale = pack_expired scheme expiry schedule

  abbrev IsDated : Packed scheme → Type 0
  IsDated = Steps.IsDated scheme dump overloaded schedule field expiry

  -- A record of the table is what the map has for its key.
  record_in_map :
      {f : List ℕ → Option Record} {t : Table scheme} (w : Represents scheme dump overloaded f t)
      (q d : Packed scheme) (ds : List (Packed scheme)) (p : IsPack scheme dump overloaded d)
      → w.held q ≡ d ∷ ds
      → f (keys_of p.0.items) ≡ some p.0
  unfolding memdb_get
  record_in_map {f} {t} w q d ds (r, (h, same)) e =
      let (a, (packed, key)) = pack-IsOf scheme dump overloaded r h in
      let matches : All (λ x. memdb_record_match scheme q x ≡ true) (d ∷ ds) =
        rw (hits-flatten hashing w.holds q ∙ e) at (hits-match hashing q (flatten t.ht_table)) in
      let there : w.held a ≡ d ∷ ds =
        same-reads hashing a d w.holds (key-match scheme a d (ap (λ v. v.vp_key) (key ∙ sym same)))
        ∙ (sym (same-reads hashing q d w.holds matches.0) ∙ e) in
      let found : ht_lookup hashing t a ≡ some d =
        Holds-lookup hashing a w.holds ∙ (rw there refl) in
      let reads : unpacked scheme dump overloaded (some d) ≡ ok (f (keys_of r.items)) =
        rw (packed, found) at (w.gets r h) in
      of_ok (sym reads ∙ (rw (unpack-IsOf scheme dump overloaded r d h same) refl))
    where
      of_ok : {x y : Option Record} → ok x ≡ ok y → x ≡ y
      of_ok e = cc

  abbrev HaveExpiry : (List ℕ → Option Record) → Type 0
  HaveExpiry f = (k : List ℕ) (r : Record) → f k ≡ some r → Expires field r (expiry r)

  flatten-IsDated :
      {f : List ℕ → Option Record} {t : Table scheme}
      → Represents scheme dump overloaded f t
      → HaveExpiry f
      → All IsDated (flatten t.ht_table)
  flatten-IsDated {f} {t} w expires = All-hits hashing IsDated (flatten t.ht_table) (λ q.
      rw (hits-flatten hashing w.holds q) (dated q (w.held q) refl (w.packs q) (w.holds.unique q)))
    where
      dated :
          (q : Packed scheme) (c : List (Packed scheme))
          → w.held q ≡ c
          → All (IsPack scheme dump overloaded) c
          → length c ≤ 1
          → All IsDated c
      dated q [] e packs one = tt
      dated q (d ∷ []) e packs one = (
        (packs.0, expires (keys_of packs.0.0.items) packs.0.0 (record_in_map w q d [] packs.0 e)),
        tt,
      )
      dated q (d ∷ d' ∷ ds) e packs one = absurd (omega arith)

  fresh-packs :
      (c : List (Packed scheme))
      → All (IsPack scheme dump overloaded) c
      → All (IsPack scheme dump overloaded) (fresh hashing stale c)
  fresh-packs [] packs = tt
  fresh-packs (d ∷ ds) packs = elim (Bool-cases (stale d)) [ inl y ↦ rw y tt | inr n ↦ rw n packs ]

  -- What is read from the records of a key that are not stale
  read_fresh :
      (c : List (Packed scheme)) (v : Option Record)
      → All (IsPack scheme dump overloaded) c
      → unpacked scheme dump overloaded (first_of hashing c) ≡ ok v
      → unpacked scheme dump overloaded (first_of hashing (fresh hashing stale c))
        ≡ ok (unexpired expiry schedule v)
  read_fresh [] none packs e = refl
  read_fresh [] (some r) packs e = cc
  read_fresh (d ∷ ds) v ((r, (h, same)), packs) e =
      let unpacks = unpack-IsOf scheme dump overloaded r d h same in
      let read : some r ≡ v = of_ok (rw unpacks at e) in
      rw (sym read) (elim (Bool-cases (expired expiry schedule r)) [
        | inl y ↦ let judged : stale d ≡ true = rw (unpacks, pack_expired) y in rw (judged, y) refl
        | inr n ↦
            let judged : stale d ≡ false = rw (unpacks, pack_expired) n in
            rw (judged, n) (rw unpacks refl)
      ])
    where
      of_ok : {x y : Option Record} → ok x ≡ ok y → x ≡ y
      of_ok e = cc

  disposed-Represents :
      (f : List ℕ → Option Record) (t : Table scheme)
      → Represents scheme dump overloaded f t
      → Represents scheme dump overloaded
          (λ k. unexpired expiry schedule (f k))
          (dispose_each hashing stale (flatten t.ht_table) t)
  unfolding memdb_get
  disposed-Represents f t w =
      let w' = disposed-Holds hashing stale w.held t w.holds in
      record {
        held = λ q. fresh hashing stale (w.held q);
        holds = w';
        packs = λ q. fresh-packs (w.held q) (w.packs q);
        gets = λ q h.
            let (a, (packed, key)) = pack-IsOf scheme dump overloaded q h in
            let before : unpacked scheme dump overloaded (first_of hashing (w.held a))
                ≡ ok (f (keys_of q.items)) =
              rw (packed, Holds-lookup hashing a w.holds) at (w.gets q h) in
            rw (packed, Holds-lookup hashing a w')
              (read_fresh (w.held a) (f (keys_of q.items)) (w.packs a) before);
      }

  cleanup_set_up :
      (n : ℕ) (f : List ℕ → Option Record) (s : Database scheme)
      → Steps.IsSetUp scheme dump overloaded schedule field expiry s
      → Represents scheme dump overloaded f s.dbt_handle
      → IsWalkable hashing s.dbt_handle
      → HaveExpiry f
      → length (flatten s.dbt_handle.ht_table) < n
      → (s' : Database scheme) × ((dbt_janitor_cleanup_walk scheme dump overloaded n s
            ≡ some (ok (expired_count scheme expiry schedule (flatten s.dbt_handle.ht_table)), s'))
          × Represents scheme dump overloaded (λ k. unexpired expiry schedule (f k)) s'.dbt_handle)
  unfolding dbt_janitor_cleanup_walk memdb_walk
  cleanup_set_up n f s up w v expires enough =
      let t = s.dbt_handle in
      let start = start-remaining hashing t v in
      let all = flatten-IsDated w expires in
      let (s', (walked, swept, count)) =
        Steps.walk_from-dispose_each scheme dump overloaded schedule field expiry n
          (record s { dbt_cleanup_deleted = 0 }) t (ht_start hashing t) refl up (rw start all)
          (start-IsHome hashing t w.holds) (rw start enough) in
      let total : s'.dbt_cleanup_deleted
          ≡ expired_count scheme expiry schedule (flatten t.ht_table) =
        let rest = rw start at count in omega (arith, rest) in
      (
        s',
        (
          rw (walked, total) refl,
          rw (swept ∙ ap (λ ds. dispose_each hashing stale ds t) start) (disposed-Represents f t w),
        ),
      )

-- On a table that represents a map of records which all have an expiry, and whose head is its first bucket with a record, the cleanup with a call of ht_next for each record and one more ends, returns the number of the records that expired before the time of the cleanup, and leaves a table that represents the map without them.
pub dbt_janitor_cleanup_walk-Represents :
    (scheme : Record) (dump : List ℕ → Option (List ℕ)) (overloaded : Load) (expiry : Record → ℤ)
    (n : ℕ) (f : List ℕ → Option Record) (s : Database scheme)
    → Represents scheme dump overloaded f s.dbt_handle
    → IsWalkable (memdb_hashing scheme) s.dbt_handle
    → ((k : List ℕ) (r : Record) → f k ≡ some r → Expires s.dbt_expire_field r (expiry r))
    → length (flatten s.dbt_handle.ht_table) < n
    → (s' : Database scheme) × ((dbt_janitor_cleanup_walk scheme dump overloaded n s
          ≡ some (
            ok (expired_count scheme expiry s.dbt_cleanup_schedule (flatten s.dbt_handle.ht_table)),
            s',
          ))
        × Represents scheme dump overloaded
            (λ k. unexpired expiry s.dbt_cleanup_schedule (f k))
            s'.dbt_handle)
dbt_janitor_cleanup_walk-Represents scheme dump overloaded expiry n f s =
    cleanup_set_up scheme dump overloaded s.dbt_cleanup_schedule s.dbt_expire_field expiry n f s
      (refl, refl)
