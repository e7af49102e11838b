-- ===== src/ConfigParse/Tests.antt =====
-- Addresses and a configuration at concrete texts.
use mathlib.Core.Option.{some-injective}
use quick_mpc.Prelude.{
  ℕ, ◌-◌, ◌*◌, ◌+◌, ◌≡◌, refl, sym, ◌∙◌, Bool, true, false, ◌&&◌, leb, if◌then◌else◌, Option, none,
  some, [], ◌∷◌, Text, codes, Lacks,
}
use quick_mpc.ConfigParse.{
  ok, thrown, empty_url, wrong_format, wrong_protocol, Environment, parse_url, before, from,
  same_text, make_config, ◌>>=◌, make_urls, get_env_int, get_env_string, get_env_url, filled,
  read_lines, assign, look_up, for_job,
}
use quick_mpc.ConfigParse.Address.{parse_lem}
use quick_mpc.ConfigParse.Variables.{of_file, make_config-of_file}

-- The three exceptions.
refused :
    (parse_url [] ≡ thrown empty_url)
    × (parse_url (codes "localhost") ≡ thrown wrong_format)
    × (parse_url (codes "ftp://localhost") ≡ thrown wrong_protocol)
unfolding parse_url before from same_text
refused = (refl, refl, refl)

parse_lem_example :
    parse_url (codes "https://container1:50120/a")
    ≡ ok (record {
      url = codes "https://container1:50120/a";
      path = codes "/a";
      protocol = codes "https";
      host = codes "container1";
      port = codes "50120";
    })
unfolding Lacks
parse_lem_example =
    parse_lem true (codes "container1") (some (codes "50120")) (some (codes "a"))
      (refl, (refl, (refl, (refl, (refl, (refl, (refl, (refl, (refl, (refl, tt))))))))))
      (refl, (refl, (refl, (refl, (refl, (refl, (refl, (refl, (refl, (refl, tt))))))))))
      (refl, (refl, (refl, (refl, (refl, tt)))))

-- The digits in front of a text, and whether there is one.
abbrev decimal : ℕ → Text → ℕ
decimal n [] = n
decimal n (c ∷ text) =
    let more = decimal (10 * n + (c - b'0')) text in if leb b'0' c && leb c b'9' then more else n

abbrev begins_number : Text → Bool
begins_number [] = false
begins_number (c ∷ text) = leb b'0' c && leb c b'9'

-- A text that does not begin with a digit is refused by `stoi`; for `atoi` it is zero.
abbrev test_process : Environment
test_process = record {
  stage = true;
  getenv = λ s. none;
  env_lines =
      codes "PARTY_ID=1"
      ∷ codes "N_PARTIES=3"
      ∷ codes "SP_ID=2"
      ∷ codes "MC_TO_CC=http://localhost:50110"
      ∷ codes "ANY_TO_DBG=http://localhost:50115"
      ∷ codes "CC_TO_BTS=http://localhost:64055"
      ∷ codes "PORT_FOR_JOB=50120"
      ∷ codes "PARTY_LIST1=http://container1:50030"
      ∷ codes "PARTY_LIST2=http://container2:50030"
      ∷ codes "PARTY_LIST3=http://container3:50030"
      ∷ [];
  stoi = λ text. if begins_number text then some (decimal 0 text) else none;
  atoi = decimal 0;
}

-- The configuration is complete.
makes_config :
    (make_config test_process >>= λ c. ok (c.party_id ∷ c.n_parties ∷ c.sp_id ∷ []))
    ≡ ok (1 ∷ 3 ∷ 2 ∷ [])
unfolding make_config make_urls get_env_int get_env_string get_env_url filled read_lines assign
    look_up parse_url before from same_text for_job
makes_config = refl

number_text :
    (found : Option Text) (c : ℕ)
    → found ≡ some (c ∷ [])
    → (leb b'0' c && leb c b'9') ≡ true
    → (text : Text) → found ≡ some text
    → test_process.stoi text ≡ some (test_process.atoi text)
number_text found c here digit text e =
    rw (← some-injective (c ∷ []) text (sym here ∙ e), digit) refl

make_config-of_file_example : make_config test_process ≡ make_config (of_file test_process)
unfolding read_lines assign look_up before from same_text
make_config-of_file_example =
    make_config-of_file test_process refl (number_text _ b'1' refl refl)
      (number_text _ b'3' refl refl) (number_text _ b'2' refl refl)
