-- ===== src/Mailbox/Addresses.antt =====
-- The addresses of a thread.
use quick_mpc.Prelude.{ℕ, zero, suc, ◌+◌, ◌%◌, ◌^◌, ◌≤◌, ◌<◌, ◌≡◌, sym, ap, ◌∙◌, arith, get_or}
use quick_mpc.Mailbox.{Address, Generator, new_address, new_addresses}

share_id-new_addresses :
    (n : ℕ) (g : Generator) (i : ℕ) (d : Address)
    → g.next_share_id < 2 ^ 32
    → i < n
    → (get_or (new_addresses n g) i d).share_id ≡ (g.next_share_id + i) % 2 ^ 32
unfolding new_addresses new_address
share_id-new_addresses zero g i d small h = absurd (omega arith)
share_id-new_addresses (suc n) g zero d small h = omega arith
share_id-new_addresses (suc n) g (suc i) d small h =
    share_id-new_addresses n (record g { next_share_id = (g.next_share_id + 1) % 2 ^ 32 }) i d
      (omega arith) (omega arith)
    ∙ omega arith

-- Up to 2 ^ 32 shares that a thread creates one after the other have different addresses, also where the
-- generator wraps around between them.
pub new_addresses-distinct :
    (n : ℕ) (g : Generator) (i j : ℕ) (d : Address)
    → g.next_share_id < 2 ^ 32
    → n ≤ 2 ^ 32
    → i < n
    → j < n
    → get_or (new_addresses n g) i d ≡ get_or (new_addresses n g) j d
    → i ≡ j
new_addresses-distinct n g i j d small few h k e =
    let same : (g.next_share_id + i) % 2 ^ 32 ≡ (g.next_share_id + j) % 2 ^ 32 =
      sym (share_id-new_addresses n g i d small h)
      ∙ ap (λ (a : Address). a.share_id) e
      ∙ share_id-new_addresses n g j d small k in
    omega (arith, same)
