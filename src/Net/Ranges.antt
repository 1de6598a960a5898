-- ===== src/Net/Ranges.antt =====
-- A prefix is a range of addresses.
use native.Mathlib.Nat.{div-add-mod, div-eq_of_lt-le, mod-lt, pow-suc}
use tvpn.Base.{arith, refl, suc, true, zero, ℕ, ◌%◌, ◌+◌, ◌-◌, ◌/◌, ◌<◌, ◌^◌, ◌↔◌, ◌≡◌, ◌≤◌}
use tvpn.Net.{Addr, prefix_contains, unmap, v4, v6}

-- Two numbers have the same quotient exactly when the second lies in the block of the first.
pub same_block_iff : (k p n : ℕ) → 0 < k → p % k ≡ 0 → (n / k ≡ p / k) ↔ ((p ≤ n) × (n < p + k))
same_block_iff k p n pos aligned =
    let n_parts = div-add-mod n k in
    let p_parts = div-add-mod p k in
    let below = mod-lt n pos in
    (
      λ e. grind (arith, e, n_parts, p_parts, below, aligned),
      λ h. div-eq_of_lt-le k (grind (arith, p_parts, aligned)) (grind (arith, p_parts, aligned)),
    )

pub pow-pos : (k : ℕ) → 0 < 2 ^ k
pow-pos zero = omega arith
pow-pos (suc k) = omega (arith, pow-suc 2 k, pow-pos k)

-- An aligned IPv4 prefix holds the addresses from its own up to the end of its block.
pub prefix_contains_v4_iff :
    (p bits n : ℕ)
    → p % 2 ^ (32 - bits) ≡ 0
    → (prefix_contains (record { addr = v4 p; bits = bits }) (v4 n) ≡ true)
      ↔ ((p ≤ n) × (n < p + 2 ^ (32 - bits)))
unfolding prefix_contains
prefix_contains_v4_iff p bits n aligned =
    let (to, from) = same_block_iff (2 ^ (32 - bits)) p n (pow-pos (32 - bits)) aligned in
    (λ h. to (ground arith), λ h. ground (arith, from h))

pub unmap_idem : (a : Addr) → unmap (unmap a) ≡ unmap a
unfolding unmap
unmap_idem (v4 n) = refl
unmap_idem (v6 n zone) = ground arith
