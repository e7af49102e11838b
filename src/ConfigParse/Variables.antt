-- ===== src/ConfigParse/Variables.antt =====
-- The configuration read in a test from the file of variables, against that read from the
-- variables of the process.
use quick_mpc.Prelude.{ℕ, ◌≡◌, refl, true, false, Option, none, some, [], ◌∷◌, Text, codes}
use quick_mpc.ConfigParse.{
  Result, ok, ◌>>=◌, Environment, EnvMap, read_lines, look_up, defined, number, filled, get_env_int,
  get_env_string, get_env_url, make_urls, make_config,
}

module _ (e : Environment) where
  filled-read :
      (m : EnvMap) → m ≡ read_lines e.env_lines [] → filled e m ≡ read_lines e.env_lines []
  unfolding filled
  filled-read [] h = refl
  filled-read (entry ∷ m) h = h

  filled-nil : filled e [] ≡ read_lines e.env_lines []
  unfolding filled
  filled-nil = refl

  -- The environment outside a test that has the variables of the file.
  abbrev pub of_file : Environment
  of_file = record e { stage = false; getenv = λ s. look_up s (read_lines e.env_lines []) }

  -- If the file has the variable, `stoi` takes its text and gives what `atoi` gives.
  abbrev pub IsNumber : Text → Type 0
  IsNumber s =
      (text : Text)
      → look_up s (read_lines e.env_lines []) ≡ some text
      → e.stoi text ≡ some (e.atoi text)

  get_env_int-test :
      (s : Text) (env_map : EnvMap)
      → e.stage ≡ true
      → get_env_int e s env_map ≡ (
          defined (look_up s (filled e env_map)) >>= λ text.
          number (e.stoi text) >>= λ n. ok (n, filled e env_map))
  unfolding get_env_int filled
  get_env_int-test s env_map test = rw (get_env_int, test) refl

  -- What follows a number that is defined is the same when it is the same for each number.
  follow-same :
      {A : Type 0} (o : Option Text) (m other : EnvMap) (f g : ℕ × EnvMap → Result A)
      → ((text : Text) → o ≡ some text → e.stoi text ≡ some (e.atoi text))
      → ((n : ℕ) → f (n, m) ≡ g (n, other))
      → (defined o >>= (λ text. number (e.stoi text) >>= λ n. ok (n, m)) >>= f)
        ≡ (defined o >>= (λ text. ok (e.atoi text, other)) >>= g)
  follow-same none m other f g reads same = refl
  follow-same (some text) m other f g reads same = rw (reads text refl) (same (e.atoi text))

  -- In a test each call for a number finds the map of the file, if it is given that map or none.
  int-file :
      {A : Type 0} (s : Text) (env_map other : EnvMap) (f g : ℕ × EnvMap → Result A)
      → e.stage ≡ true
      → IsNumber s
      → filled e env_map ≡ read_lines e.env_lines []
      → ((n : ℕ) → f (n, read_lines e.env_lines []) ≡ g (n, other))
      → (get_env_int e s env_map >>= f) ≡ (get_env_int of_file s other >>= g)
  unfolding get_env_int
  int-file s env_map other f g test reads fills same =
      rw (get_env_int-test s env_map test, fills)
        (follow-same (look_up s (read_lines e.env_lines [])) (read_lines e.env_lines []) other f g
          reads same)

  string-file :
      (s : Text) (other : EnvMap)
      → e.stage ≡ true
      → get_env_string e s (read_lines e.env_lines []) ≡ get_env_string of_file s other
  unfolding get_env_string
  string-file s other test = rw (get_env_string, test) refl

  url-file :
      (s : Text) (other : EnvMap)
      → e.stage ≡ true
      → get_env_url e s (read_lines e.env_lines []) ≡ get_env_url of_file s other
  unfolding get_env_url
  url-file s other test = rw (string-file s other test) refl

  urls-file :
      (other : EnvMap) (party_id n_parties sp_id : ℕ)
      → e.stage ≡ true
      → make_urls e (read_lines e.env_lines []) party_id n_parties sp_id
        ≡ make_urls of_file other party_id n_parties sp_id
  unfolding make_urls
  urls-file other party_id n_parties sp_id test =
      rw
        (
          make_urls,
          url-file (codes "MC_TO_CC") other test,
          url-file (codes "ANY_TO_DBG") other test,
          url-file (codes "CC_TO_BTS") other test,
          string-file (codes "PORT_FOR_JOB") other test,
          url-file (codes "PARTY_LIST1") other test,
          url-file (codes "PARTY_LIST2") other test,
          url-file (codes "PARTY_LIST3") other test,
        )
        refl

-- Where `stoi` takes the texts that the file has for the three variables that are numbers, and
-- gives for them what `atoi` gives, the configuration that a test reads from the file is the one, or
-- the exception is the one, of a process outside a test whose variables are those of the file.
pub make_config-of_file :
    (e : Environment)
    → e.stage ≡ true
    → IsNumber e (codes "PARTY_ID")
    → IsNumber e (codes "N_PARTIES")
    → IsNumber e (codes "SP_ID")
    → make_config e ≡ make_config (of_file e)
unfolding make_config
make_config-of_file e test reads_party reads_parties reads_sp =
    let m = read_lines e.env_lines [] in
    let again : filled e m ≡ m = filled-read e m refl in
    int-file e (codes "PARTY_ID") [] [] _ _ test reads_party (filled-nil e) (λ party_id.
      int-file e (codes "N_PARTIES") m [] _ _ test reads_parties again (λ n_parties.
        int-file e (codes "SP_ID") m [] _ _ test reads_sp again
          (λ sp_id. urls-file e [] party_id n_parties sp_id test)))
