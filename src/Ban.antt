-- ===== src/Ban.antt =====
-- `Ban::acceptConnection` of src/ban.cpp: connections of one address that come too fast are refused.
-- Times are milliseconds of one clock; a difference that would be negative is 0, which every test
-- treats alike. The database's bans (`IOBan`) are not modelled.
pub mod Rate
mod Tests
use baiakthunder.Base.{
  ℕ, ◌+◌, ◌-◌, Bool, true, false, Option, none, some, ltb, leb, ◌==◌, if◌then◌else◌,
}

pub record ConnectBlock : Type 0 where
  pub last_attempt : ℕ
  pub block_time : ℕ
  pub count : ℕ

abbrev pub ConnectMap : Type 0
ConnectMap = ℕ → Option ConnectBlock

-- The attempt on a known address: the answer, and the new block.
unfoldable pub attempt : ConnectBlock → ℕ → Bool × ConnectBlock
attempt b now =
    let time_diff = now - b.last_attempt in
    if ltb now b.block_time
    then (false, record b { block_time = b.block_time + 250 })
    else if leb time_diff 5000
    then if ltb 5 (b.count + 1)
      then if leb time_diff 500
        then (false, record { last_attempt = now; block_time = now + 3000; count = 0 })
        else (true, record b { last_attempt = now; count = 0 })
      else (true, record b { last_attempt = now; count = b.count + 1 })
    else (true, record b { last_attempt = now; count = 1 })

unfoldable pub accept_connection : ConnectMap → ℕ → ℕ → Bool × ConnectMap
unfolding attempt
accept_connection m ip now = elim (m ip) [
  | none ↦ (
    true,
    λ i. if ip == i then some (record { last_attempt = now; block_time = 0; count = 1 }) else m i,
  )
  | some b ↦ let (ok, b') = attempt b now in (ok, λ i. if ip == i then some b' else m i)
]
