-- ===== src/Guild/Tests.antt =====
-- A guild of level 3 with one member online.
use baiakthunder.Base.{◌-◌, ◌^◌, ◌≡◌, refl, arith, some, none, [], ◌∷◌}
use baiakthunder.Growth
use baiakthunder.Guild.{
  Guild, get_exp_for_level, add_experience, add_member, remove_member, remove_all, add_rank,
  get_rank_by_name, find_rank, same_name,
}
use baiakthunder.Guild.Level.{IsLeveled, get_exp_for_level_same, add_experience-IsLeveled}

abbrev guild : Guild
guild = record { members_online = 7 ∷ []; ranks = []; level = 3; experience = 250 }

guild-IsLeveled : IsLeveled guild
unfolding get_exp_for_level
guild-IsLeveled = record {
  least = omega arith;
  below = omega arith;
  reached = omega arith;
  next = omega arith;
}

last_member : remove_member (add_member guild 7) 7 ≡ none
unfolding remove_member remove_all add_member
last_member = refl

rank_by_name :
    get_rank_by_name (add_rank guild 1 (65 ∷ 66 ∷ []) 3) (65 ∷ 66 ∷ [])
    ≡ some (record { id = 1; name = 65 ∷ 66 ∷ []; level = 3 })
unfolding get_rank_by_name add_rank find_rank same_name
rank_by_name = refl

get_exp_for_level_same_example : get_exp_for_level 50 ≡ Growth.get_exp_for_level 50
get_exp_for_level_same_example = get_exp_for_level_same 50 (omega arith) (omega arith)

add_experience-IsLeveled_example :
    let gained = (add_experience guild 600).0 in
    let lost = (add_experience guild (2 ^ 64 - 600)).0 in
    (IsLeveled gained × (gained.experience ≡ 850)) × (IsLeveled lost × (lost.experience ≡ 0))
unfolding get_exp_for_level
add_experience-IsLeveled_example = add_experience-IsLeveled guild 600 guild-IsLeveled (omega arith)
