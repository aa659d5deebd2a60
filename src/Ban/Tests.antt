-- ===== src/Ban/Tests.antt =====
-- Six attempts in a row from one address.
use baiakthunder.Base.{◌≡◌, refl, true, false, none, some, arith, [], ◌∷◌, All, ◌+◌, ◌*◌}
use baiakthunder.Ban.{ConnectBlock, ConnectMap, accept_connection}
use baiakthunder.Ban.Rate.{
  IsCounted, accept_connection-IsCounted, accept_connection_burst, blocked_refused, attempts,
  answers, attempts_of,
}

abbrev nobody : ConnectMap
nobody i = none

abbrev held : ConnectBlock
held = record { last_attempt = 10; block_time = 3010; count = 0 }

abbrev holding : ConnectMap
holding i = some held

slow_is_let_in : (accept_connection holding 7 6000).0 ≡ true
unfolding accept_connection
slow_is_let_in = refl

accept_connection-IsCounted_example :
    IsCounted (accept_connection nobody 7 100).1 × ((accept_connection nobody 7 100).1 8 ≡ none)
accept_connection-IsCounted_example =
    accept_connection-IsCounted nobody 7 100 8 (λ i b e. cc) (omega arith)

accept_connection_burst_example :
    let (ok1, m1) = accept_connection nobody 7 0 in
    let (ok2, m2) = accept_connection m1 7 100 in
    let (ok3, m3) = accept_connection m2 7 200 in
    let (ok4, m4) = accept_connection m3 7 300 in
    let (ok5, m5) = accept_connection m4 7 400 in
    let (ok6, m6) = accept_connection m5 7 500 in
    (ok1 ≡ true) × (ok2 ≡ true) × (ok3 ≡ true) × (ok4 ≡ true) × (ok5 ≡ true) × (ok6 ≡ false)
accept_connection_burst_example =
    accept_connection_burst nobody 7 0 100 200 300 400 500 refl (omega arith) (omega arith)
      (omega arith) (omega arith) (omega arith)

-- Two attempts of the blocked address, with one of another between them; the block then ends at 3510.
blocked_refused_example :
    let m' = attempts holding ((7, 20) ∷ (8, 30) ∷ (7, 3200) ∷ []) in
    All (λ ok. ok ≡ false) (answers 7 holding ((7, 20) ∷ (8, 30) ∷ (7, 3200) ∷ []))
    × (m' 7
        ≡ some (record held {
          block_time = 3010 + 250 * attempts_of 7 ((7, 20) ∷ (8, 30) ∷ (7, 3200) ∷ []);
        }))
    × ((accept_connection m' 7 3600).0 ≡ true)
unfolding attempts_of
blocked_refused_example =
    blocked_refused holding 7 3600 held ((7, 20) ∷ (8, 30) ∷ (7, 3200) ∷ []) refl (omega arith)
      ((λ e. omega arith), ((λ e. absurd (omega (arith, e))), ((λ e. omega arith), tt)))
      (omega arith)
