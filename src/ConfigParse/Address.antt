-- ===== src/ConfigParse/Address.antt =====
-- An address that is put together from its parts is parsed into them again.
use mathlib.Core.List.{append_assoc, append-nil}
use quick_mpc.Prelude.{
  ℕ, ◌≡◌, refl, ap, ◌∙◌, Bool, true, false, Option, none, some, [], ◌∷◌, ◌++◌, arith, Text, codes,
  Lacks,
}
use quick_mpc.ConfigParse.{ok, before, from, drop, same_text, parse_behind, parse_url}

before-append : (c : ℕ) (text more : Text) → Lacks c text → before c (text ++ c ∷ more) ≡ text
unfolding before Lacks
before-append c [] more lacks = ground arith
before-append c (x ∷ text) more (other, lacks) =
    rw (before, other) (ap (λ t. x ∷ t) (before-append c text more lacks))

from-append : (c : ℕ) (text more : Text) → Lacks c text → from c (text ++ c ∷ more) ≡ c ∷ more
unfolding from Lacks
from-append c [] more lacks = ground arith
from-append c (x ∷ text) more (other, lacks) = rw (from, other) (from-append c text more lacks)

before-all : (c : ℕ) (text : Text) → Lacks c text → before c text ≡ text
unfolding before Lacks
before-all c [] lacks = refl
before-all c (x ∷ text) (other, lacks) =
    rw (before, other) (ap (λ t. x ∷ t) (before-all c text lacks))

from-none : (c : ℕ) (text : Text) → Lacks c text → from c text ≡ []
unfolding from Lacks
from-none c [] lacks = refl
from-none c (x ∷ text) (other, lacks) = rw (from, other) (from-none c text lacks)

-- The path is empty or begins with a slash.
abbrev pub path_text : Option Text → Text
path_text none = []
path_text (some p) = b'/' ∷ p

abbrev pub port_text : Option Text → Text
port_text none = []
port_text (some p) = b':' ∷ p

abbrev pub port_of : Option Text → Text
port_of none = []
port_of (some p) = p

abbrev pub LacksSlash : Option Text → Type 0
LacksSlash none = Unit {0}
LacksSlash (some p) = Lacks b'/' p

abbrev pub protocol_text : Bool → Text
protocol_text true = codes "https"
protocol_text false = codes "http"

-- The address of the protocol, the host, the port if there is one and the path if there is one.
abbrev pub print_url : Bool → Text → Option Text → Option Text → Text
print_url secure host port path =
    protocol_text secure ++ codes "://" ++ host ++ port_text port ++ path_text path

behind-lem :
    (url protocol authority : Text) (path : Option Text)
    → Lacks b'/' authority
    → parse_behind url protocol (authority ++ path_text path) ≡ record {
      url = url;
      path = path_text path;
      protocol = protocol;
      host = before b':' authority;
      port = drop 1 (from b':' authority);
    }
unfolding parse_behind
behind-lem url protocol authority none lacks =
    rw (append-nil authority, before-all b'/' authority lacks, from-none b'/' authority lacks) refl
behind-lem url protocol authority (some p) lacks =
    rw (before-append b'/' authority p lacks, from-append b'/' authority p lacks) refl

Lacks-append : (c : ℕ) (text more : Text) → Lacks c text → Lacks c more → Lacks c (text ++ more)
unfolding Lacks
Lacks-append c [] more h k = k
Lacks-append c (x ∷ text) more (other, h) k = (other, Lacks-append c text more h k)

authority-lem :
    (host : Text) (port : Option Text)
    → Lacks b':' host
    → (before b':' (host ++ port_text port) ≡ host)
      × (drop 1 (from b':' (host ++ port_text port)) ≡ port_of port)
authority-lem host none colon = (
  rw (append-nil host) (before-all b':' host colon),
  rw (append-nil host, from-none b':' host colon) refl,
)
authority-lem host (some p) colon =
    (before-append b':' host p colon, rw (from-append b':' host p colon) refl)

port-Lacks : (port : Option Text) → LacksSlash port → Lacks b'/' (port_text port)
unfolding Lacks
port-Lacks none h = tt
port-Lacks (some p) h = (refl, h)

parse_protocol :
    (secure : Bool) (text : Text)
    → parse_url (protocol_text secure ++ codes "://" ++ text)
      ≡ ok (parse_behind (protocol_text secure ++ codes "://" ++ text) (protocol_text secure) text)
unfolding parse_url before from same_text
parse_protocol true text = refl
parse_protocol false text = refl

-- An address with the protocol http or https, a host without a slash or a colon, with or without a
-- port without a slash, and with or without a path from a slash on, is parsed into these parts.
pub parse_lem :
    (secure : Bool) (host : Text) (port path : Option Text)
    → Lacks b':' host
    → Lacks b'/' host
    → LacksSlash port
    → parse_url (print_url secure host port path)
      ≡ ok (record {
        url = print_url secure host port path;
        path = path_text path;
        protocol = protocol_text secure;
        host = host;
        port = port_of port;
      })
parse_lem secure host port path colon slash no_slash =
    let authority = host ++ port_text port in
    let (before_colon, behind_colon) = authority-lem host port colon in
    let joined : print_url secure host port path
        ≡ protocol_text secure ++ codes "://" ++ (authority ++ path_text path) =
      simp append_assoc in
    ap parse_url joined
    ∙ parse_protocol secure (authority ++ path_text path)
    ∙ ap ok (
        behind-lem _ (protocol_text secure) authority path
          (Lacks-append b'/' host (port_text port) slash (port-Lacks port no_slash))
        ∙ rw (before_colon, behind_colon, ← joined) refl)
