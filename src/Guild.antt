-- ===== src/Guild.antt =====
-- src/guild.cpp: the members of a guild that are online, its ranks, and its level by experience. A name
-- is a list of bytes, and a player an identifier. Points that are negative are kept as the 64 bits that
-- spell them.
pub mod Level
mod Tests
use baiakthunder.Base.{
  ℕ, zero, suc, ◌+◌, ◌-◌, ◌*◌, ◌/◌, ◌%◌, ◌^◌, Bool, true, false, not, ltb, leb, ◌==◌, ◌&&◌, Option,
  some, none, List, [], ◌∷◌, ◌++◌, if◌then◌else◌,
}
use baiakthunder.Ladder.{climb, descend}

pub record GuildRank : Type 0 where
  pub id : ℕ
  pub name : List ℕ
  pub level : ℕ

pub record Guild : Type 0 where
  pub members_online : List ℕ
  pub ranks : List GuildRank
  pub level : ℕ
  pub experience : ℕ

unfoldable pub add_member : Guild → ℕ → Guild
add_member g x = record g { members_online = g.members_online ++ x ∷ [] }

-- std::list::remove
unfoldable pub remove_all : ℕ → List ℕ → List ℕ
remove_all x [] = []
remove_all x (y ∷ ys) = if y == x then remove_all x ys else y ∷ remove_all x ys

-- Guild::removeMember; `none` where the guild is saved and deleted.
unfoldable pub remove_member : Guild → ℕ → Option Guild
remove_member g x = elim (remove_all x g.members_online) as (λ _. Option Guild) [
  | [] ↦ none
  | y ∷ ys ↦ some (record g { members_online = y ∷ ys })
]

-- Whether two names are equal
unfoldable pub same_name : List ℕ → List ℕ → Bool
same_name [] [] = true
same_name (a ∷ xs) (b ∷ ys) = a == b && same_name xs ys
same_name [] (b ∷ ys) = false
same_name (a ∷ xs) [] = false

-- The rank that the loops of getRankById, getRankByName and getRankByLevel find, by what is asked of a rank
unfoldable pub find_rank : (GuildRank → Bool) → List GuildRank → Option GuildRank
find_rank f [] = none
find_rank f (r ∷ rs) = if f r then some r else find_rank f rs

unfoldable pub get_rank_by_id : Guild → ℕ → Option GuildRank
get_rank_by_id g i = find_rank (λ (r : GuildRank). r.id == i) g.ranks

unfoldable pub get_rank_by_level : Guild → ℕ → Option GuildRank
get_rank_by_level g n = find_rank (λ (r : GuildRank). r.level == n) g.ranks

unfoldable pub get_rank_by_name : Guild → List ℕ → Option GuildRank
get_rank_by_name g n = find_rank (λ (r : GuildRank). same_name r.name n) g.ranks

unfoldable pub add_rank : Guild → ℕ → List ℕ → ℕ → Guild
add_rank g i n l = record g { ranks = record { id = i; name = n; level = l } ∷ g.ranks }

-- Guild::getExpForLevel; below 2^31 `level--` is exact, but for level 0.
unfoldable pub get_exp_for_level : ℕ → ℕ
get_exp_for_level level =
    let k = (level + (2 ^ 64 - 1)) % 2 ^ 64 in
    (50 * k * k * k + (2 ^ 64 - 150 * k * k % 2 ^ 64) + 400 * k) % 2 ^ 64 / 3

unfoldable pub promote : Guild → Guild
promote g = record g { level = (g.level + 1) % 2 ^ 16 }

unfoldable pub demote : Guild → Guild
demote g = record g { level = (g.level + (2 ^ 16 - 1)) % 2 ^ 16 }

unfoldable pub next_level_exp : Guild → ℕ
next_level_exp g = get_exp_for_level (g.level + 1)

unfoldable pub level_exp : Guild → ℕ
level_exp g = get_exp_for_level g.level

-- The level that a guild cannot leave upwards
abbrev pub max_level : ℕ
max_level = 2 ^ 16 - 1

-- Guild::addExperience, and whether the level is another, so that the guild is saved and its members
-- are told.
unfoldable pub add_experience : Guild → ℕ → Guild × Bool
add_experience g points =
    let curr = level_exp g in
    let next = next_level_exp g in
    let sum = (g.experience + points) % 2 ^ 64 in
    let g1 : Guild = record g { experience = if ltb sum (2 ^ 63) then sum else 0 } in
    let (down, _) =
      descend (λ (h : Guild). h.level) level_exp demote 0 g.level g1.experience g1 curr in
    let (up, _, _) = climb next_level_exp promote max_level g1.experience g1 curr next in
    let g2 : Guild = if ltb g1.experience curr then down else up in
    if leb next curr then (g, false) else (g2, not (g2.level == g.level))
