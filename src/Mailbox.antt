-- ===== src/Mailbox.antt =====
-- src/ComputationContainer/Share/AddressId.hpp, Share/Networking.hpp, and the server and client in
-- Server/ComputationToComputationContainer and Client/ComputationToComputationContainer: how the parts of a
-- share travel. The text of a value stands as the value that it is printed from, which the reader
-- parses. The lock of the server makes each of its calls one step.
pub mod Delivery
pub mod Addresses
mod Tests
pub mod Batches
pub mod Vectors
pub mod Network
use quick_mpc.Prelude.{
  ℕ, zero, suc, ◌+◌, ◌%◌, ◌^◌, Bool, true, false, ◌&&◌, Option, none, some, List, [], ◌∷◌, ◌++◌,
  ◌==◌, ltb, if◌then◌else◌, length, replicate,
}
use quick_mpc.Share.{SecretValue, Shared}

-- `AddressId`.
pub record Address : Type 0 where
  pub share_id : ℕ
  pub job_id : ℕ
  pub thread_id : ℕ

unfoldable pub same_address : Address → Address → Bool
same_address a b = a.share_id == b.share_id && (a.job_id == b.job_id && a.thread_id == b.thread_id)

-- The variables of a thread: `share_id_generator`, a 32-bit integer that wraps around, and
-- `job_id_assigned_in_thread`.
pub record Generator : Type 0 where
  pub next_share_id : ℕ
  pub thread_job_id : ℕ

pub set_job_id : ℕ → Generator → Generator
set_job_id job_id g = record g { thread_job_id = job_id }

-- The constructor.
unfoldable pub new_address : Generator → Address × Generator
new_address g = (
  record { share_id = g.next_share_id; job_id = g.thread_job_id; thread_id = 0 },
  record g { next_share_id = (g.next_share_id + 1) % 2 ^ 32 },
)

-- The addresses of shares that are created one after the other.
unfoldable pub new_addresses : ℕ → Generator → List Address
new_addresses zero g = []
new_addresses (suc n) g = let (a, g') = new_address g in a ∷ new_addresses n g'

-- The request `Share` of the client.
pub record Message (A : Type 0) : Type 0 where
  pub party_id : ℕ
  pub address : Address
  pub value : A

-- The request `Shares`.
pub record Batch (A : Type 0) : Type 0 where
  pub sender : ℕ
  pub share_list : List (Address × A)

-- The map `shares` of the server, from parties and addresses.
abbrev pub Store : Type 0 → Type 0
Store A = ℕ → Address → Option A

abbrev pub empty : {A : Type 0} → Store A
empty party_id a = none

module _ {A : Type 0} where
  -- Neither request carries the thread, which then is zero.
  unfoldable pub make_share : A → Address → ℕ → Message A
  make_share value share_id party_id = record {
    party_id = party_id;
    address = record share_id { thread_id = 0 };
    value = value;
  }

  unfoldable pub set : ℕ → Address → A → Store A → Store A
  set party_id a value shares q b =
      if q == party_id && same_address b a then some value else shares q b

  unfoldable pub erase : ℕ → Address → Store A → Store A
  erase party_id a shares q b = if q == party_id && same_address b a then none else shares q b

  unfoldable pub exchange_share : Message A → Store A → Store A
  exchange_share m shares = set m.party_id m.address m.value shares

  unfoldable pub exchange_list : ℕ → List (Address × A) → Store A → Store A
  exchange_list party_id [] shares = shares
  exchange_list party_id ((a, value) ∷ share_list) shares =
      exchange_list party_id share_list (set party_id a value shares)

  -- The loop over the stream.
  unfoldable pub exchange_shares : List (Batch A) → Store A → Store A
  exchange_shares [] shares = shares
  exchange_shares (b ∷ stream) shares =
      exchange_shares stream (exchange_list b.sender b.share_list shares)

  -- `none` is a thread that waits.
  unfoldable pub get_share : ℕ → Address → Store A → Option (A × Store A)
  get_share party_id a shares = elim (shares party_id a) [
    | none ↦ none
    | some value ↦ some (value, erase party_id a shares)
  ]

  unfoldable pub get_shares : ℕ → List Address → Store A → Option (List A × Store A)
  get_shares party_id [] shares = some ([], shares)
  get_shares party_id (a ∷ share_ids) shares = elim (get_share party_id a shares) [
    | none ↦ none
    | some (value, rest) ↦ elim (get_shares party_id share_ids rest) [
      | none ↦ none
      | some (values, rest') ↦ some (value ∷ values, rest')
    ]
  ]

  -- `makeShares`, with the number of bytes of a value; an address has 12 bytes and a party 4. The batch
  -- under way and its size are the last arguments.
  unfoldable pub make_shares_loop :
      (A → ℕ) → ℕ → List (A × Address) → ℕ → List (Address × A) → List (Batch A)
  make_shares_loop bytes party_id [] size s = record { sender = party_id; share_list = s } ∷ []
  make_shares_loop bytes party_id ((value, share_id) ∷ values) size s =
      let entry : Address × A = (record share_id { thread_id = 0 }, value) in
      elim (ltb 1000000 (size + bytes value + 12 + 4)) [
        | true ↦
            record { sender = party_id; share_list = s }
            ∷ make_shares_loop bytes party_id values (bytes value + 12) (entry ∷ [])
        | false ↦ make_shares_loop bytes party_id values (size + bytes value + 12) (s ++ entry ∷ [])
      ]

  unfoldable pub make_shares : (A → ℕ) → List (A × Address) → ℕ → List (Batch A)
  make_shares bytes values party_id = make_shares_loop bytes party_id values 0 []

-- The loop of `recons` waits for a part, throws at a text that is no value, or returns.
pub data Received (A R : Type 0) : Type 0 where
  waits : Received A R
  threw : Received A R
  returned : R → Store A → Received A R

module _ {A : Type 0} ⦃sv : SecretValue A⦄ where
  -- One round: the part of the party itself is added, that of another is taken from the server.
  unfoldable pub recons_round : ℕ → ℕ → A → Address → A → Store A → Received A A
  recons_round me pt_id own a ret shares =
      if pt_id == me then returned (sv.plus ret own) shares else elim (get_share pt_id a shares) [
        | none ↦ waits
        | some (text, rest) ↦ elim (sv.parse text) [
          | none ↦ threw
          | some received_value ↦ returned (sv.plus ret received_value) rest
        ]
      ]

  -- `recons` of one share at the party `me`, after the rounds of the parties 1 to `n`.
  unfoldable pub recons_received : ℕ → ℕ → A → Address → Store A → Received A A
  recons_received me zero own a shares = returned sv.default shares
  recons_received me (suc n) own a shares = elim (recons_received me n own a shares) [
    | waits ↦ waits
    | threw ↦ threw
    | returned ret rest ↦ recons_round me (suc n) own a ret rest
  ]

  -- The loops that add the values of a party to what was added so far, and that parse texts.
  unfoldable pub add_values : List A → List A → List A
  add_values [] values = []
  add_values (ret ∷ rets) [] = ret ∷ rets
  add_values (ret ∷ rets) (value ∷ values) = sv.plus ret value ∷ add_values rets values

  unfoldable pub parse_values : List A → Option (List A)
  parse_values [] = some []
  parse_values (text ∷ texts) = elim (sv.parse text) [
    | none ↦ none
    | some value ↦ elim (parse_values texts) [ none ↦ none | some values ↦ some (value ∷ values) ]
  ]

  unfoldable pub vector_round :
      ℕ → ℕ → List A → List Address → List A → Store A → Received A (List A)
  vector_round me pt_id own ids_list ret shares =
      if pt_id == me
      then returned (add_values ret own) shares
      else elim (get_shares pt_id ids_list shares) [
        | none ↦ waits
        | some (texts, rest) ↦ elim (parse_values texts) [
          | none ↦ threw
          | some values ↦ returned (add_values ret values) rest
        ]
      ]

  -- `recons` of a vector of shares.
  unfoldable pub vector_received : ℕ → ℕ → List A → List Address → Store A → Received A (List A)
  vector_received me zero own ids_list shares = returned (replicate (length own) sv.default) shares
  vector_received me (suc n) own ids_list shares = elim (vector_received me n own ids_list shares) [
    | waits ↦ waits
    | threw ↦ threw
    | returned ret rest ↦ vector_round me (suc n) own ids_list ret rest
  ]
