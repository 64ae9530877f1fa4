-- ===== src/Vp/Keys.antt =====
-- The keys of records of one scheme: none is a proper beginning of another.
use mathlib.Core.List.{append_assoc, append-nil}
use mopher.Prelude.{
  ℕ, zero, suc, ◌≤◌, ◌≡◌, refl, sym, ◌∙◌, Bool, true, false, Bool-cases, ==_iff, inl, inr, List, [],
  ◌∷◌, ◌++◌, arith, ◌==◌, ◌&&◌, leb, if◌then◌else◌, length, drop, length-append, drop-append, none,
  some,
}
use mopher.Exec.{Result, ok, fail, undefined}
use mopher.Vp.{Item, item, copy_size, ◌>>=◌}
use mopher.Vp.Objects.{copy_size-append}
use mopher.Vp.Round.{AreItems, keys_of, without_data}

-- What is left of bytes behind the keys of a scheme
unfoldable pub key_left : List Item → List ℕ → Result (List ℕ)
key_left [] key = ok key
key_left (item t name false d ∷ items) key = key_left items key
key_left (item t name true d ∷ items) key = do
  n ← copy_size t key
  if leb n (length key) then key_left items (drop n key) else fail undefined

abbrev pub IsKey : List Item → List ℕ → Type 0
IsKey scheme key = key_left scheme key ≡ ok []

drop-append_le : (n : ℕ) (xs ys : List ℕ) → n ≤ length xs → drop n (xs ++ ys) ≡ drop n xs ++ ys
drop-append_le zero xs ys h = refl
drop-append_le (suc n) [] ys h = absurd (omega arith)
drop-append_le (suc n) (x ∷ xs) ys h = drop-append_le n xs ys (omega arith)

of_bind :
    {A B : Type 0} (m : Result A) (f : A → Result B) {b : B}
    → (m >>= f) ≡ ok b
    → (a : A) × ((m ≡ ok a) × (f a ≡ ok b))
of_bind (ok a) f h = (a, (refl, h))
of_bind (fail e) f h = cc

-- The branch of a key, for a number of bytes
abbrev behind : List Item → List ℕ → ℕ → Result (List ℕ)
unfolding key_left
behind items key n = if leb n (length key) then key_left items (drop n key) else fail undefined

key_left-append :
    (scheme : List Item) (key more : List ℕ) {left : List ℕ}
    → key_left scheme key ≡ ok left
    → key_left scheme (key ++ more) ≡ ok (left ++ more)
unfolding key_left
key_left-append [] key more {left} h = ok_append (λ (k : List ℕ). k ++ more) h
  where
    ok_append : {k l : List ℕ} (f : List ℕ → List ℕ) → ok k ≡ ok l → ok (f k) ≡ ok (f l)
    ok_append f e = cc
key_left-append (item t name false d ∷ items) key more h = key_left-append items key more h
key_left-append (item t name true d ∷ items) key more h =
    let (n, (size, rest)) = of_bind (copy_size t key) (behind items key) h in
    elim (Bool-cases (leb n (length key))) [
      | inl fits ↦
          let wider : leb n (length (key ++ more)) ≡ true =
            ground (arith, length-append {0} key more) in
          rw (copy_size-append t key more size, wider, drop-append_le n key more (ground arith))
            (key_left-append items (drop n key) more (rw fits at rest))
      | inr short ↦ cc (rw short at rest)
    ]

key_left-keys_of :
    (items : List Item) (more : List ℕ)
    → AreItems items
    → key_left (without_data items) (keys_of items ++ more) ≡ ok more
unfolding key_left keys_of without_data
key_left-keys_of [] more h = refl
key_left-keys_of (item t name true none ∷ items) more h = absurd h.0
key_left-keys_of (item t name false none ∷ items) more h = key_left-keys_of items more h.1
key_left-keys_of (item t name false (some p) ∷ items) more h = key_left-keys_of items more h.1
key_left-keys_of (item t name true (some p) ∷ items) more h =
    let rest = keys_of items ++ more in
    let fits : leb (length p) (length (p ++ rest)) ≡ true =
      ground (arith, length-append {0} p rest) in
    rw
      (append_assoc p (keys_of items) more, copy_size-append t p rest h.0, fits, drop-append p rest)
      (key_left-keys_of items more h.1)

pub keys_of-IsKey :
    (items : List Item) → AreItems items → IsKey (without_data items) (keys_of items)
keys_of-IsKey items h = rw (append-nil (keys_of items)) at (key_left-keys_of items [] h)

-- `memcmp` of the bytes of the first; a byte that is not there differs.
unfoldable pub begins : List ℕ → List ℕ → Bool
begins [] ys = true
begins (x ∷ xs) [] = false
begins (x ∷ xs) (y ∷ ys) = x == y && begins xs ys

pub begins_refl : (xs : List ℕ) → begins xs xs ≡ true
unfolding begins
begins_refl [] = refl
begins_refl (x ∷ xs) = rw ((==_iff x x).1 refl) (begins_refl xs)

begins-append : (xs ys : List ℕ) → begins xs ys ≡ true → (more : List ℕ) × (ys ≡ xs ++ more)
unfolding begins
begins-append [] ys h = (ys, refl)
begins-append (x ∷ xs) [] h = cc
begins-append (x ∷ xs) (y ∷ ys) h = elim (Bool-cases (x == y)) [
  | inl same ↦
      let (more, e) = begins-append xs ys (rw same at h) in
      let head = (==_iff x y).0 same in (more, cc)
  | inr differ ↦ cc (rw differ at h)
]

-- Keys of one scheme of which one begins the other are equal.
pub IsKey-begins :
    (scheme : List Item) (a b : List ℕ)
    → IsKey scheme a
    → IsKey scheme b
    → begins a b ≡ true
    → a ≡ b
IsKey-begins scheme a b h k e =
    let (more, split) = begins-append a b e in
    let left : ok more ≡ ok [] = sym (key_left-append scheme a more h) ∙ (rw split at k) in
    let empty : more ≡ [] = cc in sym (split ∙ (rw empty (append-nil a)))
