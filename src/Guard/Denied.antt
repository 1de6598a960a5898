-- ===== src/Guard/Denied.antt =====
-- The addresses that are never a target.
use tvpn.Base.{[], arith, inl, inr, list_beq, true, ◌*◌, ◌+◌, ◌^◌, ◌≡◌, ◌⊎◌}
use tvpn.Guard.{hard_denied}
use tvpn.Net.{Addr, addr_beq_iff, is_global_unicast, prefix_contains, unmap, v4, v6}
use tvpn.Net.Ranges.{unmap_idem}
use tvpn.Policy.{is_non_public}

-- An IPv4-mapped form of a denied address is denied too, whatever its zone.
pub hard_denied-unmap : (a : Addr) → hard_denied (unmap a) ≡ hard_denied a
unfolding hard_denied
hard_denied-unmap a = rw (unmap_idem a)

denied-cases :
    (a : Addr)
    → hard_denied a ≡ true
    → (unmap a ≡ v4 0xa9fea9fe)
      ⊎ ((unmap a ≡ v4 0xa9feaa02)
          ⊎ ((unmap a ≡ v4 0x646464c8) ⊎ (unmap a ≡ v6 (0xfd000ec2 * 2 ^ 96 + 0x254) [])))
unfolding hard_denied
denied-cases a h = ground (
  arith,
  addr_beq_iff (unmap a) (v4 0xa9fea9fe),
  addr_beq_iff (unmap a) (v4 0xa9feaa02),
  addr_beq_iff (unmap a) (v4 0x646464c8),
  addr_beq_iff (unmap a) (v6 (0xfd000ec2 * 2 ^ 96 + 0x254) []),
)

-- Every address that is always denied is also not public, so a policy that denies the intranet refuses
-- it as well.
pub non_public-hard_denied : (a : Addr) → hard_denied a ≡ true → is_non_public a ≡ true
unfolding is_non_public prefix_contains is_global_unicast list_beq
non_public-hard_denied a h = elim (denied-cases a h) [
  | inl e ↦ rw e
  | inr (inl e) ↦ rw e
  | inr (inr (inl e)) ↦ rw e
  | inr (inr (inr e)) ↦ rw e
]
