-- ===== src/Milter/Callbacks.antt =====
-- The callbacks of src/milter.c, which libmilter calls for the commands of an SMTP session. Memory is
-- taken to suffice, so that of the steps before the access list only those that read an address or look
-- a variable up can fail. Log lines and the watchdog are left out. The mailspec points to the header and
-- the body that it shows; here it holds what they were.
use Prim.Native.String.{len, ◌++◌ as append}
use mopher.Prelude.{
  ℕ, ◌+◌, String, Bool, true, false, Option, none, some, List, [], ◌∷◌, ◌++◌, if◌then◌else◌,
}
use mopher.Prelude.Int.{ℤ, pos, ◌+ℤ◌}
use mopher.Var.{Data, nil, addr, int, string}
use mopher.Vtable.{vtable_setv}
use mopher.Stage.{Stage}
use mopher.Util.{util_strmail, util_strdomain, util_strdupenc}
use mopher.Milter.{MilterPriv}

-- `MAILADDRLEN`
abbrev pub mail_addr_len : ℕ
mail_addr_len = 512

-- The context of the session, the value of a macro at a stage, functions of the C library, and those of
-- src/util.c and src/regdom.c on addresses and host names. `none` is NULL or -1.
pub record Server : Type 0 where
  pub ctx : ℕ
  pub smfi_getsymval : Stage → String → Option String
  pub strcasecmp : String → String → Bool
  pub tolower : String → String
  pub time : Option ℤ
  pub milter_get_id : Option String
  pub util_hostaddr : ℕ → Option ℕ
  pub util_addr_ipv6 : ℕ → ℤ
  pub util_addrtostr : Option ℕ → Option String
  pub milter_origin : String → String → Option String

abbrev pub new_priv : MilterPriv
new_priv = record {
  mp_table = nil;
  mp_recipients = pos 0;
  mp_header = none;
  mp_headerlen = pos 0;
  mp_body = none;
  mp_bodylen = pos 0;
  mp_eom_complete = pos 0;
}

abbrev pub set_table : MilterPriv → List (String × Data) → MilterPriv
set_table mp vs = record mp { mp_table = vtable_setv mp.mp_table vs }

-- What a callback does before the access list: it fails at the `false`, after the changes that come with it.
abbrev pub Preparation : Type 0
Preparation = MilterPriv → Bool × MilterPriv

unfoldable pub unknown_command : String → Preparation
unknown_command cmd mp = (true, set_table mp (("unknown_command", string (some cmd)) ∷ []))

unfoldable pub helo_name : String → Preparation
helo_name helostr mp = (true, set_table mp (("helo", string (some helostr)) ∷ []))

-- The address without its port, and whether it is one of IPv6; a client may come without an address.
abbrev pub clean_address : Server → Option ℕ → Option (Option ℕ × ℤ)
clean_address l none = some (none, pos 0)
clean_address l (some a) = elim (l.util_hostaddr a) [
  | none ↦ none
  | some clean ↦ some (some clean, l.util_addr_ipv6 a)
]

unfoldable pub connection : Server → String → Option ℕ → Preparation
connection l hostname hostaddr mp = elim (clean_address l hostaddr) [
  | none ↦ (false, mp)
  | some (clean, ipv6) ↦ elim (l.util_addrtostr clean) [
    | none ↦ (false, mp)
    | some hostaddr_str ↦ elim (l.milter_origin hostname hostaddr_str) [
      | none ↦ (false, mp)
      | some origin ↦ (
        true,
        set_table mp (
            ("hostname", string (some hostname))
            ∷ ("ipv6", int (some ipv6))
            ∷ ("hostaddr", addr clean)
            ∷ ("hostaddr_str", string (some hostaddr_str))
            ∷ ("origin", string (some origin))
            ∷ ("eom_complete", int (some (pos 0)))
            ∷ []),
      )
    ]
  ]
]

-- The address and the domain of an argument
abbrev pub mailbox : Server → String → Option (String × String)
mailbox l arg = elim (util_strmail mail_addr_len arg) [
  | none ↦ none
  | some mail ↦ elim (util_strdomain mail_addr_len mail) [
    | none ↦ none
    | some domain ↦ some (mail, l.tolower domain)
  ]
]

unfoldable pub sender : Server → String → Preparation
unfolding util_strmail util_strdomain
sender l arg mp = elim (mailbox l arg) [
  | none ↦ (false, mp)
  | some (from, domain) ↦ (
    true,
    set_table mp (
        ("envfrom", string (some arg))
        ∷ ("envfrom_addr", string (some from))
        ∷ ("envfrom_domain", string (some domain))
        ∷ []),
  )
]

abbrev pub count_recipient : MilterPriv → MilterPriv
count_recipient mp = record mp { mp_recipients = mp.mp_recipients +ℤ pos 1 }

unfoldable pub recipient : Server → String → Preparation
unfolding util_strmail util_strdomain
recipient l arg mp = elim (mailbox l arg) [
  | none ↦ (false, count_recipient mp)
  | some (rcpt, domain) ↦ (
    true,
    set_table (count_recipient mp) (
        ("envrcpt", string (some arg))
        ∷ ("envrcpt_addr", string (some rcpt))
        ∷ ("envrcpt_domain", string (some domain))
        ∷ ("recipients", int (some (mp.mp_recipients +ℤ pos 1)))
        ∷ []),
  )
]

unfoldable pub recipient_count : Preparation
recipient_count mp = (true, set_table mp (("recipients", int (some mp.mp_recipients)) ∷ []))

abbrev pub text_or_empty : Option String → String
text_or_empty none = ""
text_or_empty (some s) = s

-- The header is written behind those that came before, and its length counts no zero byte.
abbrev pub add_header : String → String → MilterPriv → MilterPriv
add_header headerf headerv mp = record mp {
  mp_header =
      some (
        append (text_or_empty mp.mp_header) (append headerf (append ": " (append headerv "\r\n"))));
  mp_headerlen = mp.mp_headerlen +ℤ pos (len headerf + len headerv + 4);
}

-- The variables of the two headers that the program shows
abbrev pub known_header : Server → String → String → List (String × Data)
known_header l headerf headerv =
    (if l.strcasecmp headerf "Message-ID"
      then ("message_id", string (some (util_strdupenc headerv))) ∷ []
      else [])
    ++ (if l.strcasecmp headerf "Subject" then ("subject", string (some headerv)) ∷ [] else [])

unfoldable pub message_header : Server → String → String → Preparation
unfolding util_strdupenc
message_header l headerf headerv mp = (
  true,
  set_table
      (set_table (add_header headerf headerv mp)
        (("header_name", string (some headerf)) ∷ ("header_value", string (some headerv)) ∷ []))
      (known_header l headerf headerv),
)

unfoldable pub headers : Preparation
headers mp = (
  true,
  set_table mp
      (("headers", string mp.mp_header) ∷ ("headers_size", int (some mp.mp_headerlen)) ∷ []),
)

unfoldable pub body_part : String → Preparation
body_part chunk mp = (
  true,
  record mp {
    mp_body = some (append (text_or_empty mp.mp_body) chunk);
    mp_bodylen = mp.mp_bodylen +ℤ pos (len chunk);
  },
)

-- `message_size` counts the line between the headers and the body.
unfoldable pub message : Preparation
message mp = (
  true,
  set_table (record mp { mp_eom_complete = pos 1 })
      (("body_size", int (some mp.mp_bodylen))
        ∷ ("message_size", int (some (mp.mp_bodylen +ℤ mp.mp_headerlen +ℤ pos 2)))
        ∷ ("body", string mp.mp_body)
        ∷ ("eom_complete", int (some (pos 1)))
        ∷ []),
)

-- `none` is -1; the private data stay as they are.
unfoldable pub init_stage : Server → Preparation
init_stage l mp = elim l.milter_get_id [
  | none ↦ (false, mp)
  | some id ↦ elim l.time [
    | none ↦ (false, mp)
    | some now ↦ (
      true,
      set_table mp (
          ("id", string (some id))
          ∷ ("received", int (some now))
          ∷ ("acl_matched", int (some (pos 0)))
          ∷ ("acl_stage_matched", int (some (pos 0)))
          ∷ ("acl_rule", int none)
          ∷ ("acl_filename", string none)
          ∷ ("acl_line", int none)
          ∷ ("acl_response", string none)
          ∷ []),
    )
  ]
]
