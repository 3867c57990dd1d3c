-- ===== src/Pipeline/Gate.antt =====
-- `ModuleGate` and `permit_module` of src/pipeline.rs: who may be charged for, and reach, a module.
-- The user database is another program: its two answers are arguments.
pub mod Laws
use cockatiel_engine_rs.Shared.{
  ℕ, Bool, true, false, ◌&&◌, ◌||◌, not, Option, none, some, ltb, nat_beq, if◌then◌else◌,
}
use cockatiel_engine_rs.Shared.Int.{ℤ, pos, to_i32, ltb_ℤ}
use cockatiel_engine_rs.Wire.{F32}

pub record ModuleGate : Type 0 where
  pub authority : ℕ
  pub min_rank : F32
  pub price : ℕ

unfoldable pub is_open : ModuleGate → Bool
is_open g = nat_beq g.authority 0 && not (ltb_ℤ (pos 0) g.min_rank) && nat_beq g.price 0

pub record User : Type 0 where
  pub is_owner : Bool
  pub is_admin : Bool
  pub is_moderator : Bool
  pub rank : F32

-- AUTHORITY_OWNER, AUTHORITY_ADMIN, AUTHORITY_MOD and AUTHORITY_USER: the highest role held.
unfoldable pub tier : User → ℕ
tier u = if u.is_owner then 3 else if u.is_admin then 2 else if u.is_moderator then 1 else 0

-- What the user database answers to `get_user`: an error, nobody, or the user.
pub data UserReply : Type 0 where
  db_error unknown : UserReply
  found : User → UserReply

unfoldable pub role_and_rank : ModuleGate → User → Bool
unfolding tier
role_and_rank g u =
    not (ltb 0 g.authority && ltb (tier u) g.authority)
    && not (ltb_ℤ (pos 0) g.min_rank && ltb_ℤ u.rank g.min_rank)

-- The decision and, where a price is asked, the amount that the user database is told to deduct.
-- `deducts` is its answer: that it applied the deduction.
unfoldable pub permit : Option ModuleGate → Bool → Bool → UserReply → (ℤ → Bool) → Bool × Option ℤ
unfolding is_open role_and_rank to_i32
permit none anonymous wired reply deducts = (true, none)
permit (some g) anonymous wired reply deducts =
    if is_open g || anonymous || not wired then (true, none) else elim reply [
      | db_error ↦ (true, none)
      | unknown ↦ (false, none)
      | found u ↦
          if role_and_rank g u
          then (if ltb 0 g.price
              then (deducts (to_i32 g.price), some (to_i32 g.price))
              else (true, none))
          else (false, none)
    ]
