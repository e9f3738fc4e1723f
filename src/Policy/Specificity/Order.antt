-- ===== src/Policy/Specificity/Order.antt =====
-- `moreSpecific` is a strict order in which only equal scores are tied.
use agent_creance.Prelude.{
  ℕ, Bool, true, false, ◌≡◌, ◌≤◌, bytes_lt_irrefl, bytes_lt_trans, bytes_lt_total, arith, IsStrict,
}
use agent_creance.Policy.Specificity.{Specificity, by_rank, more_specific}

by_rank_irrefl : (a : ℕ) (r : Bool) → r ≡ false → by_rank a a r ≡ false
by_rank_irrefl a r h = ground arith

by_rank_trans :
    (a b c : ℕ) (r s t : Bool)
    → (r ≡ true → s ≡ true → t ≡ true)
    → by_rank a b r ≡ true
    → by_rank b c s ≡ true
    → by_rank a c t ≡ true
by_rank_trans a b c r s t k h h' = ground arith

more_specific_irrefl : (a : Specificity) → more_specific a a ≡ false
unfolding more_specific
more_specific_irrefl a = by_rank_irrefl a.host_rank _ (
    by_rank_irrefl a.path_scoped _ (
      by_rank_irrefl a.literal_segs _ (
        by_rank_irrefl a.total_segs _
          (by_rank_irrefl a.method_scoped _ (bytes_lt_irrefl a.canonical)))))

more_specific_trans :
    (a b c : Specificity)
    → more_specific a b ≡ true
    → more_specific b c ≡ true
    → more_specific a c ≡ true
unfolding more_specific
more_specific_trans a b c = by_rank_trans a.host_rank b.host_rank c.host_rank _ _ _ (
    by_rank_trans a.path_scoped b.path_scoped c.path_scoped _ _ _ (
      by_rank_trans a.literal_segs b.literal_segs c.literal_segs _ _ _ (
        by_rank_trans a.total_segs b.total_segs c.total_segs _ _ _ (
          by_rank_trans a.method_scoped b.method_scoped c.method_scoped _ _ _
            (bytes_lt_trans a.canonical b.canonical c.canonical)))))

pub more_specific-IsStrict : IsStrict more_specific
more_specific-IsStrict = record { irrefl = more_specific_irrefl; trans = more_specific_trans }

tied_rank :
    (a b : ℕ) (r s : Bool)
    → by_rank a b r ≡ false
    → by_rank b a s ≡ false
    → (a ≡ b) × (r ≡ false) × (s ≡ false)
tied_rank a b r s h k = ground arith

-- Two scores neither of which is above the other are the same score.
pub more_specific_total :
    (a b : Specificity) → more_specific a b ≡ false → more_specific b a ≡ false → a ≡ b
unfolding more_specific
more_specific_total a b h k =
    let (e1, h1, k1) = tied_rank a.host_rank b.host_rank _ _ h k in
    let (e2, h2, k2) = tied_rank a.path_scoped b.path_scoped _ _ h1 k1 in
    let (e3, h3, k3) = tied_rank a.literal_segs b.literal_segs _ _ h2 k2 in
    let (e4, h4, k4) = tied_rank a.total_segs b.total_segs _ _ h3 k3 in
    let (e5, h5, k5) = tied_rank a.method_scoped b.method_scoped _ _ h4 k4 in
    ground (arith, bytes_lt_total a.canonical b.canonical h5 k5)

by_rank-le : (a b : ℕ) (r : Bool) → by_rank a b r ≡ false → a ≤ b
by_rank-le a b r h = ground arith

-- What is not more specific has no higher host rank.
pub host_rank_le : (a b : Specificity) → more_specific a b ≡ false → a.host_rank ≤ b.host_rank
unfolding more_specific
host_rank_le a b h = by_rank-le a.host_rank b.host_rank _ h
