-- ===== src/Server/Clients.antt =====
-- The clients of the control socket: the slots of `server_main` (src/server.c) and whether it waits for new
-- connections. A slot is the socket of a client or -1, and the list ends where the source has its last 0. The
-- largest descriptor only bounds what `select` looks at, and is left out.
use mopher.Prelude.{
  ℕ, zero, suc, ap, length, Bool, true, false, ◌||◌, ◌≡◌, refl, ◌∙◌, Option, none, some, List, [],
  ◌∷◌, replicate, if◌then◌else◌, arith, Bool-cases, Option-cases, inl, inr,
}
use mopher.Prelude.Int.{ℤ, pos, negsuc, ltb_ℤ, eqb_ℤ}

pub record Slots : Type 0 where
  pub server_clients : List ℤ
  pub listening : Bool

-- The slots and the set of `select` before the loop
abbrev pub no_clients : Slots
no_clients = record { server_clients = replicate 10 (negsuc 0); listening = true }

abbrev pub is_used : ℤ → Bool
is_used c = ltb_ℤ (pos 0) c

abbrev pub behind : ℤ → Option (List ℤ) → Option (List ℤ)
behind c none = none
behind c (some cs) = some (c ∷ cs)

-- The first slot that is not used takes the socket; `none` is the 0 at the end.
unfoldable pub place : ℤ → List ℤ → Option (List ℤ)
place fd [] = none
place fd (c ∷ cs) =
    let rest = place fd cs in
    if is_used c then behind c rest else if eqb_ℤ c (pos 0) then none else some (fd ∷ cs)

-- A connection, with what `accept` returns for it, -1 included
unfoldable pub new_client : ℤ → Slots → Slots
unfolding place
new_client fd s = elim (place fd s.server_clients) [
  | none ↦ record s { listening = false }
  | some clients ↦ record s { server_clients = clients }
]

-- What `server_request` returns for a client whose socket is ready
abbrev pub is_over : Option ℤ → Bool
is_over none = false
is_over (some r) = eqb_ℤ r (negsuc 0) || eqb_ℤ r (pos 0)

-- The loop over the clients, and whether one was closed
unfoldable pub serve_clients : (ℤ → Option ℤ) → List ℤ → List ℤ × Bool
serve_clients request [] = ([], false)
serve_clients request (c ∷ cs) =
    let (rest, closed) = serve_clients request cs in
    if eqb_ℤ c (pos 0)
    then (c ∷ cs, false)
    else if eqb_ℤ c (negsuc 0)
    then (c ∷ rest, closed)
    else if is_over (request c)
    then (negsuc 0 ∷ rest, true)
    else (c ∷ rest, closed)

-- A round of the main loop: `select` has found a connection or not, and some clients.
pub record Ready : Type 0 where
  pub connection : Option ℤ
  pub request : ℤ → Option ℤ

abbrev pub connected : Option ℤ → Slots → Slots
connected none s = s
connected (some fd) s = new_client fd s

unfoldable pub server_round : Ready → Slots → Slots
unfolding new_client serve_clients
server_round r s =
    let s' = connected r.connection s in
    let (clients, closed) = serve_clients r.request s'.server_clients in
    record s' { server_clients = clients; listening = closed || s'.listening }

-- The sockets that are closed at the end
unfoldable pub close_clients : List ℤ → List ℤ
close_clients [] = []
close_clients (c ∷ cs) = let rest = close_clients cs in if is_used c then c ∷ rest else []

-- A connection is found only where the server waits for one, and `accept` does not return 0.
pub data Step : Slots → Slots → Type 0 where
  quiet :
      {s : Slots} (request : ℤ → Option ℤ)
      → Step s (server_round (record { connection = none; request = request }) s)
  arrived :
      {s : Slots} (fd : ℤ) (request : ℤ → Option ℤ)
      → s.listening ≡ true
      → eqb_ℤ fd (pos 0) ≡ false
      → Step s (server_round (record { connection = some fd; request = request }) s)

pub data Reach : Slots → Type 0 where
  start : Reach no_clients
  next : {s s' : Slots} → Reach s → Step s s' → Reach s'

abbrev pub AllUsed : List ℤ → Type 0
AllUsed [] = Unit
AllUsed (c ∷ cs) = (is_used c ≡ true) × AllUsed cs

abbrev NoZero : List ℤ → Type 0
NoZero [] = Unit
NoZero (c ∷ cs) = (eqb_ℤ c (pos 0) ≡ false) × NoZero cs

record IsOpen (s : Slots) : Type 0 where
  sockets : NoZero s.server_clients
  ten : length s.server_clients ≡ 10
  waits : s.listening ≡ false → AllUsed s.server_clients

-- The list is full where no slot was found, and otherwise has sockets only.
abbrev Placed : List ℤ → Option (List ℤ) → Type 0
Placed cs none = AllUsed cs
Placed cs (some cs') = NoZero cs' × (length cs' ≡ length cs)

behind-Placed :
    (c : ℤ) (cs : List ℤ) (o : Option (List ℤ))
    → is_used c ≡ true
    → eqb_ℤ c (pos 0) ≡ false
    → Placed cs o
    → Placed (c ∷ cs) (behind c o)
behind-Placed c cs none used n h = (used, h)
behind-Placed c cs (some cs') used n (h, same) = ((n, h), ap suc same)

place-Placed :
    (fd : ℤ) (cs : List ℤ) → eqb_ℤ fd (pos 0) ≡ false → NoZero cs → Placed cs (place fd cs)
unfolding place
place-Placed fd [] nz z = tt
place-Placed fd (c ∷ cs) nz (n, z) = elim (Bool-cases (is_used c)) [
  | inl used ↦ rw used (behind-Placed c cs (place fd cs) used n (place-Placed fd cs nz z))
  | inr free ↦ rw (free, n) ((nz, z), refl)
]

-- No socket is 0 after the clients were served, and where none was closed no slot was given up.
abbrev Served : List ℤ → List ℤ × Bool → Type 0
Served cs p = NoZero p.0 × (length p.0 ≡ length cs) × (p.1 ≡ false → AllUsed cs → AllUsed p.0)

serve-Served :
    (request : ℤ → Option ℤ) (cs : List ℤ) → NoZero cs → Served cs (serve_clients request cs)
unfolding serve_clients
serve-Served request [] z = (tt, refl, λ open_all h. h)
serve-Served request (c ∷ cs) (n, z) =
    let (fine, same, kept) = serve-Served request cs z in
    elim (Bool-cases (eqb_ℤ c (negsuc 0))) [
      | inl free ↦ rw (n, free) ((n, fine), ap suc same, λ e (u, h). (u, kept e h))
      | inr used ↦ elim (Bool-cases (is_over (request c))) [
        | inl over ↦ rw (n, used, over) ((refl, fine), ap suc same, λ e h. absurd (cc))
        | inr on ↦ rw (n, used, on) ((n, fine), ap suc same, λ e (u, h). (u, kept e h))
      ]
    ]

new_client-IsOpen :
    (fd : ℤ) (s : Slots)
    → eqb_ℤ fd (pos 0) ≡ false
    → s.listening ≡ true
    → IsOpen s
    → IsOpen (new_client fd s)
unfolding new_client
new_client-IsOpen fd s nz on h = elim (Option-cases (place fd s.server_clients)) [
  | inl e ↦
      let full = place-Placed fd s.server_clients nz h.sockets in
      rw (new_client, e) (record { sockets = h.sockets; ten = h.ten; waits = λ off. rw e at full })
  | inr (cs, e) ↦
      let fine = place-Placed fd s.server_clients nz h.sockets in
      let found : NoZero cs × (length cs ≡ length s.server_clients) = rw e at fine in
      rw (new_client, e)
        (record { sockets = found.0; ten = found.1 ∙ h.ten; waits = λ off. absurd (cc) })
]

or-false : (a b : Bool) → (a || b) ≡ false → (a ≡ false) × (b ≡ false)
or-false a b h = (ground arith, ground arith)

served-IsOpen :
    (request : ℤ → Option ℤ) (s : Slots)
    → IsOpen s
    → IsOpen (server_round (record { connection = none; request = request }) s)
unfolding server_round
served-IsOpen request s h =
    let (fine, same, kept) = serve-Served request s.server_clients h.sockets in
    record {
      sockets = fine;
      ten = same ∙ h.ten;
      waits =
          λ e. let (none_closed, off) = or-false _ s.listening e in kept none_closed (h.waits off);
    }

Step-IsOpen : {s s' : Slots} → Step s s' → IsOpen s → IsOpen s'
unfolding server_round
Step-IsOpen (quiet {s} request) h = served-IsOpen request s h
Step-IsOpen (arrived {s} fd request on nz) h =
    served-IsOpen request (new_client fd s) (new_client-IsOpen fd s nz on h)

NoZero-replicate : (n : ℕ) → NoZero (replicate n (negsuc 0))
NoZero-replicate zero = tt
NoZero-replicate (suc n) = (refl, NoZero-replicate n)

Reach-IsOpen : {s : Slots} → Reach s → IsOpen s
Reach-IsOpen start = record { sockets = NoZero-replicate 10; ten = refl; waits = λ e. absurd (cc) }
Reach-IsOpen (next r st) = Step-IsOpen st (Reach-IsOpen r)

-- In every state that the main loop reaches with a socket other than 0 for each connection, if the
-- server does not wait for connections, then all ten slots have a client.
pub Reach-AllUsed :
    (s : Slots)
    → Reach s
    → s.listening ≡ false
    → AllUsed s.server_clients × (length s.server_clients ≡ 10)
Reach-AllUsed s r off = ((Reach-IsOpen r).waits off, (Reach-IsOpen r).ten)
