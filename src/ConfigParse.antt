-- ===== src/ConfigParse.antt =====
-- src/ComputationContainer/ConfigParse/ConfigParse.hpp: addresses and the configuration of a party.
-- A text is the list of its bytes. An exception is a value of `ConfigError`; logging is left out.
pub mod Address
pub mod Variables
mod Tests
use quick_mpc.Prelude.{
  ℕ, zero, suc, Bool, true, false, ◌&&◌, ◌||◌, Option, none, some, List, [], ◌∷◌, ◌++◌, ◌==◌,
  if◌then◌else◌, Text, codes,
}

pub record Url : Type 0 where
  pub url : Text
  pub path : Text
  pub protocol : Text
  pub host : Text
  pub port : Text

pub data ConfigError : Type 0 where
  empty_url wrong_format wrong_protocol not_defined not_a_number : ConfigError

pub data Result (A : Type 0) : Type 0 where
  ok : A → Result A
  thrown : ConfigError → Result A

-- `abbrev`, so that `ok a >>= f` computes wherever it stands.
infixl 5 ◌>>=◌
abbrev pub ◌>>=◌ : {A B : Type 0} → Result A → (A → Result B) → Result B
ok a >>= f = f a
thrown e >>= f = thrown e

-- What stands before the first `c`, and what stands from there on: `std::find`.
unfoldable pub before : ℕ → Text → Text
before c [] = []
before c (x ∷ text) = let rest = before c text in if x == c then [] else x ∷ rest

unfoldable pub from : ℕ → Text → Text
from c [] = []
from c (x ∷ text) = let rest = from c text in if x == c then x ∷ text else rest

-- `it += n`; past the end, where the source is undefined, nothing is left.
abbrev pub drop : ℕ → Text → Text
drop zero text = text
drop (suc n) [] = []
drop (suc n) (x ∷ text) = drop n text

abbrev pub is_nil : Text → Bool
is_nil [] = true
is_nil (x ∷ text) = false

unfoldable pub same_text : Text → Text → Bool
same_text [] [] = true
same_text [] (y ∷ ys) = false
same_text (x ∷ xs) [] = false
same_text (x ∷ xs) (y ∷ ys) = (x == y) && same_text xs ys

-- The host, the port and the path behind the protocol: the host ends at the first colon before the
-- first slash, or at the slash, or at the end.
unfoldable pub parse_behind : Text → Text → Text → Url
parse_behind url protocol text =
    let authority = before b'/' text in
    record {
      url = url;
      path = from b'/' text;
      protocol = protocol;
      host = before b':' authority;
      port = drop 1 (from b':' authority);
    }

-- `Url::Parse`.
unfoldable pub parse_url : Text → Result Url
parse_url url =
    let protocol = before b':' url in
    let protocol_end = from b':' url in
    if is_nil url
    then thrown empty_url
    else if is_nil protocol_end
    then thrown wrong_format
    else if same_text protocol (codes "http") || same_text protocol (codes "https")
    then ok (parse_behind url protocol (drop 3 protocol_end))
    else thrown wrong_protocol

pub get_address : Url → Text
get_address u = u.host ++ b':' ∷ u.port

-- The process: whether IS_TEST is defined, `getenv`, the lines of the file with the variables, and
-- the conversions `stoi`, which may throw, and `atoi`.
pub record Environment : Type 0 where
  pub stage : Bool
  pub getenv : Text → Option Text
  pub env_lines : List Text
  pub stoi : Text → Option ℕ
  pub atoi : Text → ℕ

-- `env_map`, in the order of its keys' first insertion.
abbrev pub EnvMap : Type 0
EnvMap = List (Text × Text)

-- `env_map[key] = value`, and a look-up.
unfoldable pub assign : Text → Text → EnvMap → EnvMap
assign key value [] = (key, value) ∷ []
assign key value ((k, v) ∷ env_map) =
    let rest = assign key value env_map in
    if same_text k key then (key, value) ∷ env_map else (k, v) ∷ rest

unfoldable pub look_up : Text → EnvMap → Option Text
look_up key [] = none
look_up key ((k, v) ∷ env_map) =
    let rest = look_up key env_map in if same_text k key then some v else rest

-- The lines of the file: what stands before the first `=`, and from there up to the next.
unfoldable pub read_lines : List Text → EnvMap → EnvMap
read_lines [] env_map = env_map
read_lines (env ∷ env_lines) env_map =
    read_lines env_lines (assign (before b'=' env) (before b'=' (drop 1 (from b'=' env))) env_map)

abbrev pub defined : {A : Type 0} → Option A → Result A
defined none = thrown not_defined
defined (some a) = ok a

abbrev pub number : Option ℕ → Result ℕ
number none = thrown not_a_number
number (some n) = ok n

-- `getEnvInt` reads the file when it is the first to be called, and keeps what it read.
unfoldable pub filled : Environment → EnvMap → EnvMap
filled e [] = read_lines e.env_lines []
filled e (entry ∷ env_map) = entry ∷ env_map

unfoldable pub get_env_int : Environment → Text → EnvMap → Result (ℕ × EnvMap)
get_env_int e s env_map = elim e.stage [
  | true ↦ do
    let now = filled e env_map
    text ← defined (look_up s now)
    n ← number (e.stoi text)
    ok (n, now)
  | false ↦ do text ← defined (e.getenv s); ok (e.atoi text, env_map)
]

unfoldable pub get_env_string : Environment → Text → EnvMap → Result Text
get_env_string e s env_map = defined (if e.stage then look_up s env_map else e.getenv s)

unfoldable pub get_env_url : Environment → Text → EnvMap → Result Url
get_env_url e s env_map = do text ← get_env_string e s env_map; parse_url text

-- The public members of `Config`.
pub record PartyConfig : Type 0 where
  pub party_id : ℕ
  pub n_parties : ℕ
  pub sp_id : ℕ
  pub mc_to_cc : Url
  pub any_to_dbg : Url
  pub cc_to_bts : Url
  pub ip_addr_map : List (ℕ × Url)
  pub ip_addr_for_job_map : List (ℕ × Url)

-- The loop over the addresses of the parties: only the port is another one.
unfoldable pub for_job : Text → List (ℕ × Url) → List (ℕ × Url)
for_job port_for_job [] = []
for_job port_for_job ((party_id, value) ∷ ip_addr_map) =
    (party_id, record value { port = port_for_job }) ∷ for_job port_for_job ip_addr_map

-- The constructor, from the first address on, and the whole of it.
unfoldable pub make_urls : Environment → EnvMap → ℕ → ℕ → ℕ → Result PartyConfig
make_urls e env_map party_id n_parties sp_id = do
  mc_to_cc ← get_env_url e (codes "MC_TO_CC") env_map
  any_to_dbg ← get_env_url e (codes "ANY_TO_DBG") env_map
  cc_to_bts ← get_env_url e (codes "CC_TO_BTS") env_map
  port_for_job ← get_env_string e (codes "PORT_FOR_JOB") env_map
  party_1 ← get_env_url e (codes "PARTY_LIST1") env_map
  party_2 ← get_env_url e (codes "PARTY_LIST2") env_map
  party_3 ← get_env_url e (codes "PARTY_LIST3") env_map
  let ip_addr_map = (1, party_1) ∷ (2, party_2) ∷ (3, party_3) ∷ []
  ok (record {
    party_id = party_id;
    n_parties = n_parties;
    sp_id = sp_id;
    mc_to_cc = mc_to_cc;
    any_to_dbg = any_to_dbg;
    cc_to_bts = cc_to_bts;
    ip_addr_map = ip_addr_map;
    ip_addr_for_job_map = for_job port_for_job ip_addr_map;
  })

unfoldable pub make_config : Environment → Result PartyConfig
make_config e = do
  (party_id, env_map_1) ← get_env_int e (codes "PARTY_ID") []
  (n_parties, env_map_2) ← get_env_int e (codes "N_PARTIES") env_map_1
  (sp_id, env_map_3) ← get_env_int e (codes "SP_ID") env_map_2
  make_urls e env_map_3 party_id n_parties sp_id
