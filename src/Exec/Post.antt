-- ===== src/Exec/Post.antt =====
-- What holds after a function that succeeds, with one rule for a sequence.
use mopher.Prelude.{◌≡◌}
use mopher.Exec.{Result, ok, fail, Exec, continue, ◌>>=◌}

module _ {S A : Type 0} where
  abbrev pub After : Result A → S → (A → S → Type 0) → Type 0
  After (ok a) s Q = Q a s
  After (fail e) s Q = Unit

  abbrev pub Post : Exec S A → S → (A → S → Type 0) → Type 0
  Post m s Q = After (m s).0 (m s).1 Q

  After-weaken :
      (r : Result A) (s : S) (P Q : A → S → Type 0)
      → After r s P
      → ((a : A) (s' : S) → P a s' → Q a s')
      → After r s Q
  After-weaken (ok a) s P Q h k = k a s h
  After-weaken (fail e) s P Q h k = tt

  pub Post-weaken :
      (m : Exec S A) (s : S) (P Q : A → S → Type 0)
      → Post m s P
      → ((a : A) (s' : S) → P a s' → Q a s')
      → Post m s Q
  Post-weaken m s P Q h k = After-weaken (m s).0 (m s).1 P Q h k

  pub Post-result :
      (m : Exec S A) (s : S) (Q : A → S → Type 0) {a : A} {s' : S}
      → Post m s Q
      → m s ≡ (ok a, s')
      → Q a s'
  Post-result m s Q h e = rw e at h

module _ {S A B : Type 0} where
  After-continue :
      (r : Result A) (s : S) (f : A → Exec S B) (P : A → S → Type 0) (Q : B → S → Type 0)
      → After r s P
      → ((a : A) (s' : S) → P a s' → Post (f a) s' Q)
      → After (continue r f s).0 (continue r f s).1 Q
  After-continue (ok a) s f P Q h k = k a s h
  After-continue (fail e) s f P Q h k = tt

  pub Post-bind :
      (m : Exec S A) (f : A → Exec S B) (s : S) (P : A → S → Type 0) (Q : B → S → Type 0)
      → Post m s P
      → ((a : A) (s' : S) → P a s' → Post (f a) s' Q)
      → Post (m >>= f) s Q
  Post-bind m f s P Q h k = After-continue (m s).0 (m s).1 f P Q h k
