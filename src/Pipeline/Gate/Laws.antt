-- ===== src/Pipeline/Gate/Laws.antt =====
-- The decision of `permit_module` of src/pipeline.rs on every path.
use cockatiel_engine_rs.Pipeline.Gate
use cockatiel_engine_rs.Shared.{
  ◌≤◌, ◌<◌, ◌^◌, ℕ, ◌≡◌, ◌↔◌, Bool, true, false, ◌||◌, not, none, some, arith,
}
use cockatiel_engine_rs.Pipeline.Gate.{
  permit, role_and_rank, ModuleGate, User, UserReply, tier, is_open,
}
use cockatiel_engine_rs.Shared.Int.{ℤ, pos, ◌<ℤ◌, ◌≤ℤ◌, to_i32}

-- The roles that an authority admits: a moderator or more for 1, an admin or more for 2, the owner for 3,
-- and nobody above.
abbrev pub HasRole : ℕ → User → Type 0
HasRole authority u =
    (authority ≡ 1 → (u.is_owner || u.is_admin || u.is_moderator) ≡ true)
    × (authority ≡ 2 → (u.is_owner || u.is_admin) ≡ true)
    × (authority ≡ 3 → u.is_owner ≡ true)
    × (authority ≤ 3)

-- The role and the rank that a gate asks for.
abbrev pub MeetsGate : ModuleGate → User → Type 0
MeetsGate g u = HasRole g.authority u × (pos 0 <ℤ g.min_rank → g.min_rank ≤ℤ u.rank)

role_and_rank_iff : (g : ModuleGate) (u : User) → (role_and_rank g u ≡ true) ↔ MeetsGate g u
unfolding role_and_rank tier
role_and_rank_iff g u = ground arith

-- What a gate that is not open decides, for a price that an `i32` holds. Without a user, or without a user
-- database, the message passes and nobody is charged; so it does where the database is down; a user
-- the database does not know does not pass. A known user passes exactly with the role and the rank
-- that the gate asks for and, if there is a price, with a deduction of that price which the database
-- applied; and that deduction, and no other, is asked for of those who meet role and rank, and of no one
-- else.
pub permit_lem :
    (g : ModuleGate) (u : User) (anonymous wired : Bool) (reply : UserReply) (deducts : ℤ → Bool)
    → is_open g ≡ false
    → g.price < 2 ^ 31
    → ((anonymous || not wired) ≡ true
        → permit (some g) anonymous wired reply deducts ≡ (true, none))
      × (permit (some g) false true Gate.db_error deducts ≡ (true, none))
      × (permit (some g) false true Gate.unknown deducts ≡ (false, none))
      × (((permit (some g) false true (Gate.found u) deducts).0 ≡ true)
          ↔ (MeetsGate g u × (0 < g.price → deducts (pos g.price) ≡ true)))
      × ((amount : ℤ)
          → ((permit (some g) false true (Gate.found u) deducts).1 ≡ some amount)
            ↔ (MeetsGate g u × (0 < g.price) × (amount ≡ pos g.price)))
unfolding permit to_i32
permit_lem g u anonymous wired reply deducts h small = (
  λ k. ground arith,
  ground arith,
  ground arith,
  ground (arith, role_and_rank_iff g u),
  λ amount. ground (arith, role_and_rank_iff g u),
)
