-- ===== src/Repository/Pools.antt =====
-- What a pool holds and what is claimed from it.
use casper_cloud.Prelude.{
  ◌≡◌, ap, sym, ◌∙◌, ◌==◌, ◌&&◌, not, ltb, leb, ℕ, zero, suc, ◌+◌, ◌-◌, ◌*◌, ◌%◌, ◌^◌, ◌≤◌, ◌<◌,
  List, arith, exists, Bool-cases, inl, inr,
}
use native.Mathlib.Nat.{mod-eq_of_lt, mod-eq-sub-mod}
use casper_cloud.Data.{Inet}
use casper_cloud.Exec.{ok}
use casper_cloud.Repository.Hosts.{hosts_from, host_count, masked, usable_ipv4_hosts}

-- The loop without overflow: exactly the addresses of its range but the gateway.
hosts_from-exists :
    (net gateway i n x : ℕ)
    → net + i + n ≤ 2 ^ 32
    → exists (λ h. h == x) (hosts_from net gateway i n)
      ≡ (leb (net + i) x && ltb x (net + i + n) && not (x == gateway))
unfolding hosts_from exists
hosts_from-exists net gateway i zero x h = ground arith
hosts_from-exists net gateway i (suc n) x h =
    let ip : (net + i) % 2 ^ 32 ≡ net + i = omega arith in
    rw ip (ground (arith, hosts_from-exists net gateway (suc i) n x (omega arith)))

pow_add : (j k : ℕ) → 2 ^ (j + k) ≡ 2 ^ j * 2 ^ k
pow_add zero k = let e : zero + k ≡ k = omega arith in ap (λ (t : ℕ). 2 ^ t) e ∙ omega arith
pow_add (suc j) k =
    let e : suc j + k ≡ suc (j + k) = omega arith in
    ap (λ (t : ℕ). 2 ^ t) e ∙ grind (arith, pow_add j k)

suc_block : (j m : ℕ) → suc j * m ≡ m + j * m
suc_block j m = omega arith

block-bound : (j m a : ℕ) → 0 < m → a < j * m → a - a % m + m ≤ j * m
block-bound zero m a pos h = omega arith
block-bound (suc j) m a pos h = elim (Bool-cases (ltb a m)) [
  | inl t ↦ omega (arith, suc_block j m, mod-eq_of_lt {n = a} {m = m} (ground arith))
  | inr t ↦
      let low : m ≤ a = ground arith in
      omega (
        arith,
        suc_block j m,
        mod-eq-sub-mod {n = a} {m = m} low,
        block-bound j m (a - m) pos (omega (arith, suc_block j m)),
      )
]

pow-pos : (k : ℕ) → 0 < 2 ^ k
pow-pos zero = omega arith
pow-pos (suc k) = omega (arith, pow-pos k)

pow_four : (k : ℕ) → 2 ≤ k → 4 ≤ 2 ^ k
pow_four zero h = omega arith
pow_four (suc zero) h = omega arith
pow_four (suc (suc k)) h = omega (arith, pow-pos k)

-- The block of a prefix lies in the 32-bit numbers, and has two addresses more than hosts.
prefix_block :
    (a bits : ℕ)
    → a < 2 ^ 32
    → 8 ≤ bits
    → bits ≤ 30
    → (masked a bits + 2 ^ (32 - bits) ≤ 2 ^ 32)
      × (4 ≤ 2 ^ (32 - bits))
      × (host_count bits + 2 ≡ 2 ^ (32 - bits))
prefix_block a bits h low high =
    let all : bits + (32 - bits) ≡ 32 = omega arith in
    let whole : 2 ^ bits * 2 ^ (32 - bits) ≡ 2 ^ 32 =
      sym (pow_add bits (32 - bits)) ∙ ap (λ (t : ℕ). 2 ^ t) all in
    let room : masked a bits + 2 ^ (32 - bits) ≤ 2 ^ 32 = omega (
      arith,
      whole,
      block-bound (2 ^ bits) (2 ^ (32 - bits)) a (pow-pos (32 - bits)) (omega (arith, whole)),
    ) in
    let four = pow_four (32 - bits) (omega arith) in (room, four, omega (arith, room, four))

-- For an IPv4 prefix of 8 to 30 bits the pool is made, and holds exactly the addresses between the
-- first and the last of the prefix's block, without the gateway.
pub usable_ipv4_hosts_exact :
    (a bits gateway : ℕ)
    → a < 2 ^ 32
    → 8 ≤ bits
    → bits ≤ 30
    → (hosts : List Inet) × (usable_ipv4_hosts a bits gateway ≡ ok hosts)
      × ((x : Inet)
          → exists (λ h. h == x) hosts ≡ (
              ltb (masked a bits) x
              && ltb x (masked a bits + 2 ^ (32 - bits) - 1)
              && not (x == gateway)))
unfolding usable_ipv4_hosts
usable_ipv4_hosts_exact a bits gateway h low high =
    let (room, four, count) = prefix_block a bits h low high in
    (
      hosts_from (masked a bits) gateway 1 (host_count bits),
      ground (arith, four, count),
      λ x. ground (
        arith,
        count,
        room,
        four,
        hosts_from-exists (masked a bits) gateway 1 (host_count bits) x
            (omega (arith, room, count, four)),
      ),
    )
