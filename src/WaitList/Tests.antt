-- ===== src/WaitList/Tests.antt =====
-- A server of two hundred players with a queue.
use baiakthunder.Base.{ℕ, ◌<◌, ◌≡◌, ◌⊎◌, refl, true, false, [], ◌∷◌, arith}
use baiakthunder.WaitList.{Lists, Client, Server, client_login, find_client}
use baiakthunder.WaitList.Order.{Placed, find_client-Placed, client_login_limit}
use baiakthunder.WaitList.Queue.{IsQueue, client_login-IsQueue}

abbrev full : Server
full = record { max_players = 200; players_online = 200; time = 1000 }

abbrev roomy : Server
roomy = record full { players_online = 198 }

abbrev queue : Lists
queue = record {
  priority = record { timeout = 9000; guid = 4 } ∷ record { timeout = 500; guid = 5 } ∷ [];
  normal = record { timeout = 9000; guid = 6 } ∷ [];
}

abbrev client : ℕ → Client
client guid = record {
  guid = guid;
  can_always_login = false;
  is_gamemaster = false;
  is_premium = false;
}

-- The timed-out client is dropped, and a new one goes to the third place with twenty seconds.
login_new_client : client_login full queue (client 9) 0 ≡ record {
  allowed = false;
  slot = 3;
  lists = record {
    priority = record { timeout = 9000; guid = 4 } ∷ [];
    normal = record { timeout = 9000; guid = 6 } ∷ record { timeout = 21000; guid = 9 } ∷ [];
  };
}
unfolding client_login
login_new_client = refl

login_second : (client_login roomy queue (client 6) 0).allowed ≡ true
unfolding client_login
login_second = refl

queue-IsQueue : IsQueue queue
queue-IsQueue = record {
  priority_once = omega arith;
  normal_once = omega arith;
  not_both = λ g. ground arith;
}

find_client-Placed_example : Placed queue 6 (find_client queue 6)
find_client-Placed_example = find_client-Placed queue 6

client_login_limit_example : (roomy.max_players ≡ 0) ⊎ (198 < 200)
unfolding client_login
client_login_limit_example = client_login_limit roomy queue (client 6) 0 refl refl refl

client_login-IsQueue_example : IsQueue (client_login full queue (client 9) 0).lists
client_login-IsQueue_example = client_login-IsQueue full queue (client 9) 0 queue-IsQueue
