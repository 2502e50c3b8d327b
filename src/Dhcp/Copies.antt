-- ===== src/Dhcp/Copies.antt =====
-- The options of a packet that are copied in some order of the loop of ServeDHCP
-- (proxybatcher/proxy_handler.go).
use mathlib.Core.List.{Permᴰ}
use dhcp_batcher.Common.{
  ℕ, Bytes, [], ◌∷◌, ◌++◌, ◌≡◌, refl, ap, ◌∙◌, arith, All, ◌==◌, if◌then◌else◌,
}
use dhcp_batcher.Lease.{Options, option}
use dhcp_batcher.Dhcp.{last_option, IsAbsent, IsOptionMap, IsStorable}

pub perm-IsStorable : {l m : Options} → Permᴰ l m → All IsStorable l → All IsStorable m
perm-IsStorable Permᴰ.nil h = tt
perm-IsStorable (Permᴰ.cons {a = (i, v)} {b = (j, w)} e p) (here, later) =
    (ground (arith, ap (λ x. x.0) e, ap (λ x. x.1) e, here), perm-IsStorable p later)
perm-IsStorable (Permᴰ.swap {a = (i, v)} {b = (j, w)} {a' = (i', v')} {b' = (j', w')} e e') h =
    ground (arith, ap (λ x. x.0) e, ap (λ x. x.0) e', ap (λ x. x.1) e, ap (λ x. x.1) e', h)
perm-IsStorable (Permᴰ.trans p q) h = perm-IsStorable q (perm-IsStorable p h)

perm-IsAbsent : {l m : Options} (c : ℕ) → Permᴰ l m → IsAbsent c l → IsAbsent c m
perm-IsAbsent c Permᴰ.nil h = tt
perm-IsAbsent c (Permᴰ.cons {a = (i, v)} {b = (j, w)} e p) (here, later) =
    (ground (arith, ap (λ x. x.0) e, here), perm-IsAbsent c p later)
perm-IsAbsent c (Permᴰ.swap {a = (i, v)} {b = (j, w)} {a' = (i', v')} {b' = (j', w')} e e') h =
    ground (arith, ap (λ x. x.0) e, ap (λ x. x.0) e', h)
perm-IsAbsent c (Permᴰ.trans p q) h = perm-IsAbsent c q (perm-IsAbsent c p h)

-- A permutation of a map's entries is the same map.
pub perm-option :
    {l m : Options}
    → Permᴰ l m
    → IsOptionMap l
    → IsOptionMap m × ((c : ℕ) → option c m ≡ option c l)
unfolding option
perm-option Permᴰ.nil h = (tt, λ c. refl)
perm-option (Permᴰ.cons {a = (i, v)} {b = (j, w)} e p) (absent, h) =
    let (later, same) = perm-option p h in
    (
      ground (arith, later, ap (λ x. x.0) e, perm-IsAbsent i p absent),
      λ c. ground (arith, same c, ap (λ x. x.0) e, ap (λ x. x.1) e),
    )
perm-option (Permᴰ.swap {a = (i, v)} {b = (j, w)} {a' = (i', v')} {b' = (j', w')} e e') h = (
  ground (arith, ap (λ x. x.0) e, ap (λ x. x.0) e', h),
  λ c. ground (arith, h, ap (λ x. x.0) e, ap (λ x. x.0) e', ap (λ x. x.1) e, ap (λ x. x.1) e'),
)
perm-option (Permᴰ.trans p q) h =
    let (mid, same) = perm-option p h in
    let (end, also) = perm-option q mid in (end, λ c. also c ∙ same c)

last_option_absent : (c : ℕ) (m : Options) (v : Bytes) → IsAbsent c m → last_option c m v ≡ v
unfolding last_option
last_option_absent c [] v h = refl
last_option_absent c ((k, w) ∷ m) v (ne, h) = ground (arith, last_option_absent c m v h)

-- In a map the last entry under a code is the only one.
pub last_option-option : (c : ℕ) (m : Options) → IsOptionMap m → last_option c m [] ≡ option c m
unfolding last_option option
last_option-option c [] h = refl
last_option-option c ((k, w) ∷ m) (absent, h) =
    ground (arith, last_option-option c m h, last_option_absent k m w absent)

-- The options of a packet, copied in any order, say the same.
pub last_option_copied :
    (c : ℕ) {m order : Options}
    → Permᴰ m order
    → IsOptionMap m
    → last_option c order [] ≡ option c m
last_option_copied c {m} {order} p h =
    let (still, same) = perm-option p h in last_option-option c order still ∙ same c

-- An option that is appended is the one that is read.
pub last_option-append :
    (c k : ℕ) (v w : Bytes) (m : Options)
    → last_option c (m ++ (k, w) ∷ []) v ≡ (if k == c then w else last_option c m v)
unfolding last_option
last_option-append c k v w [] = refl
last_option-append c k v w ((i, x) ∷ m) = last_option-append c k (if i == c then x else v) w m
