-- ===== src/Server/Transfer.antt =====
-- Data on its way from the server to a client.
use mathlib.Core.List.{append-nil, append_assoc}
use mopher.Prelude.{
  ℕ, zero, suc, ◌+◌, ◌-◌, ◌≤◌, ◌<◌, Bool, true, false, ◌≡◌, refl, sym, ap, ◌∙◌, Option, none, some,
  List, [], ◌∷◌, ◌++◌, length, length-append, take-all, drop, ltb, leb, arith,
}
use mopher.Prelude.Int.{ℤ, pos}
use mopher.Exec.{ok, ◌>>=◌, continue}
use mopher.Base64.{codes}
use mopher.Server.{
  Bytes, Session, max_buffer, put_back, read_from, read, reading, has_percent, server_ok,
  server_reply, server_output, size_of, announce, header, data_size, receive, receive_all, checked,
  server_data_cmd,
}

drop-all : {A : Type 0} (n : ℕ) (xs : List A) → length xs ≤ n → drop n xs ≡ []
drop-all zero [] h = refl
drop-all zero (x ∷ xs) h = absurd (omega (arith, h))
drop-all (suc n) [] h = refl
drop-all (suc n) (x ∷ xs) h = drop-all n xs (omega (arith, h))

-- The data in pieces as they arrive, none of which is empty
abbrev pub Pieces : List Bytes → Bytes → Type 0
Pieces [] text = text ≡ []
Pieces ([] ∷ ps) text = ⊥
Pieces ((c ∷ cs) ∷ ps) text = (rest : Bytes) × ((text ≡ c ∷ cs ++ rest) × Pieces ps rest)

abbrev pub arrivals : List Bytes → List (Option Bytes) → List (Option Bytes)
arrivals [] later = later
arrivals (p ∷ ps) later = some p ∷ arrivals ps later

module _ {B : Type 0} where
  abbrev pub session : List (Option Bytes) → List Bytes → B → Session B
  session incoming sent backend = record { incoming = incoming; sent = sent; backend = backend }

  -- A piece that is not longer than what is asked for is read whole.
  read_whole :
      (n : ℕ) (p : Bytes) (later : List (Option Bytes)) (sent : List Bytes) (b : B)
      → length p ≤ n
      → read n (session (some p ∷ later) sent b) ≡ (some p, session later sent b)
  read_whole n p later sent b h = rw (read, read_from, take-all n p h, drop-all n p h, put_back)

  receive-Pieces :
      (ps : List Bytes) (text buffer : Bytes) (fuel n : ℕ) (later : List (Option Bytes))
      (sent : List Bytes) (b : B)
      → Pieces ps text
      → n ≡ length text
      → n ≤ fuel
      → receive fuel n buffer (session (arrivals ps later) sent b)
        ≡ some (some (buffer ++ text), session later sent b)
  unfolding receive
  receive-Pieces [] text buffer fuel n later sent b h e k =
      let none_left : n ≡ 0 = e ∙ ap length h in rw (none_left, h, append-nil buffer)
  receive-Pieces ([] ∷ ps) text buffer fuel n later sent b h e k = absurd h
  receive-Pieces ((c ∷ cs) ∷ ps) text buffer fuel zero later sent b (rest, (split, h)) e k =
      absurd (omega (arith, e ∙ ap length split))
  receive-Pieces ((c ∷ cs) ∷ ps) text buffer zero (suc n) later sent b h e k =
      absurd (omega (arith, k))
  receive-Pieces ((c ∷ cs) ∷ ps) text buffer (suc fuel) (suc n) later sent b (rest, (split, h)) e
        k =
      let lengths : suc n ≡ length (c ∷ cs) + length rest =
        e ∙ (ap length split ∙ length-append {0} (c ∷ cs) rest) in
      let fits : length cs ≤ n = omega (arith, lengths) in
      let left : suc n - suc (length cs) ≡ length rest = omega (arith, lengths) in
      let joined : (buffer ++ c ∷ cs) ++ rest ≡ buffer ++ text =
        append_assoc buffer (c ∷ cs) rest ∙ ap (λ (t : Bytes). buffer ++ t) (sym split) in
      rw (receive, read, read_from, take-all n cs fits, drop-all n cs fits, put_back)
        (receive-Pieces ps rest (buffer ++ c ∷ cs) fuel (suc n - suc (length cs)) later sent b h
            left (omega (arith, k, left, lengths))
          ∙ rw joined)

  receive-closed :
      (fuel n : ℕ) (buffer : Bytes) (sent : List Bytes) (b : B)
      → 0 < n
      → receive fuel n buffer (session [] sent b) ≡ none
  unfolding receive
  receive-closed fuel zero buffer sent b h = absurd (omega (arith, h))
  receive-closed zero (suc n) buffer sent b h = refl
  receive-closed (suc fuel) (suc n) buffer sent b h =
      receive-closed fuel (suc n - 0) (buffer ++ []) sent b (omega arith)

abbrev pub line : Bytes → Bytes
line message = message ++ b'\n' ∷ []

module _ (can_write : List Bytes → Bool) (writes : (sent : List Bytes) → can_write sent ≡ true)
    {B : Type 0} where
  reply_lem :
      (message : Bytes) (incoming : List (Option Bytes)) (sent : List Bytes) (b : B)
      → length message < 4095
      → server_reply can_write message (session incoming sent b)
        ≡ (ok true, session incoming (line message ∷ sent) b)
  unfolding server_reply
  reply_lem message incoming sent b h =
      let short : leb 4095 (length message) ≡ false = ground arith in rw (short, writes sent)

  module _ (decimal : ℕ → Bytes) (text : Bytes)
      (short : length (decimal (length text)) < 4095) where
    -- The server sends the size, waits for the client, and sends the data.
    server_output_lem :
        (later : List (Option Bytes)) (sent : List Bytes) (b : B)
        → server_output can_write decimal text (session (some (codes "OK") ∷ later) sent b)
          ≡ (ok true, session later (text ∷ line (decimal (length text)) ∷ sent) b)
    unfolding server_output
    server_output_lem later sent b =
        rw
          (
            server_output,
            ◌>>=◌,
            reply_lem (decimal (length text)) (some (codes "OK") ∷ later) sent b short,
            continue,
          )
          (rw (writes (line (decimal (length text)) ∷ sent)))

    module _ (atoi : Bytes → Option ℤ) (cmd : Bytes) (is_text : has_percent cmd ≡ false)
        (fits : length cmd < 4095)
        (number : atoi (line (decimal (length text))) ≡ some (pos (length text)))
        (bounded : length text ≤ max_buffer) where
      -- The client asks, reads the size, agrees, and has it in front of the data.
      data_size_lem :
          (later : List (Option Bytes)) (sent : List Bytes) (b : B)
          → data_size can_write atoi cmd
              (session (some (line (decimal (length text))) ∷ later) sent b)
            ≡ (ok (some (length text)), session later (codes "OK" ∷ line cmd ∷ sent) b)
      unfolding data_size server_ok
      data_size_lem later sent b =
          let size = line (decimal (length text)) in
          let incoming = some size ∷ later in
          let whole : length size ≤ 4096 =
            omega (arith, length-append {0} (decimal (length text)) (b'\n' ∷ []), short) in
          let small : ltb max_buffer (length text) ≡ false = ground (arith, bounded) in
          rw (
            data_size,
            ◌>>=◌,
            is_text,
            reply_lem cmd incoming sent b fits,
            continue,
            header,
            reading,
            read,
            read_from,
            take-all 4096 size whole,
            drop-all 4096 size whole,
            put_back,
            size_of,
            number,
            small,
            announce,
            server_ok,
            writes (line cmd ∷ sent),
          )

      -- If every write succeeds, the size is written in fewer than 4095 bytes that atoi reads back,
      -- the text is at most as long as the client takes, the command is shorter than 4095 bytes and
      -- has no %, and the size and each OK arrive in one piece and the text in any pieces that are not
      -- empty, with as much fuel as the text has bytes: the server sends the size and, after OK, the
      -- text; the client asks, agrees and receives exactly the text; and neither has read past the
      -- exchange.
      pub server_data_cmd-server_output :
          (ps : List Bytes) (fuel : ℕ) (before after : List (Option Bytes))
          (sent sent' : List Bytes) (b b' : B)
          → Pieces ps text
          → length text ≤ fuel
          → (server_output can_write decimal text (session (some (codes "OK") ∷ before) sent b)
              ≡ (ok true, session before (text ∷ line (decimal (length text)) ∷ sent) b))
            × (server_data_cmd can_write fuel atoi cmd (
                  session
                    (some (line (decimal (length text))) ∷ arrivals ps (some (codes "OK") ∷ after))
                    sent'
                    b')
                ≡ some (ok (some text), session after (codes "OK" ∷ line cmd ∷ sent') b'))
      unfolding server_data_cmd
      server_data_cmd-server_output ps fuel before after sent sent' b b' h k =
          let later = some (codes "OK") ∷ after in
          let asked = codes "OK" ∷ line cmd ∷ sent' in
          (
            server_output_lem before sent b,
            rw (
              server_data_cmd,
              data_size_lem (arrivals ps later) sent' b',
              receive_all,
              receive-Pieces ps text [] fuel (length text) later asked b' h refl k,
              checked,
            ),
          )

      -- If every write succeeds, the size is written in fewer than 4095 bytes that atoi reads back,
      -- the text is at most as long as the client takes, the command is shorter than 4095 bytes and
      -- has no %, and the server announces a text that is not empty and then closes the connection,
      -- the client's loop of reads does not end: no fuel is enough.
      pub server_data_cmd-closed :
          (fuel : ℕ) (sent : List Bytes) (b : B)
          → 0 < length text
          → server_data_cmd can_write fuel atoi cmd
              (session (some (line (decimal (length text))) ∷ []) sent b)
            ≡ none
      unfolding server_data_cmd
      server_data_cmd-closed fuel sent b h = rw (
        server_data_cmd,
        data_size_lem [] sent b,
        receive_all,
        receive-closed fuel (length text) [] (codes "OK" ∷ line cmd ∷ sent) b h,
        checked,
      )
