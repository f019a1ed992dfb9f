-- ===== src/Tests/Shell.antt =====
-- Commands.
use black_circle.Prelude.{ℕ, ◌≡◌, refl, false, [], ◌∷◌, some, none, codes}
use black_circle.OAuth.{token_requester}
use black_circle.Twitter.Types.{User, Tweet, Stores, fresh_user, fresh_tweet}
use black_circle.Twitter.UserStore.{find_user}
use black_circle.Client.{TwitterClient}
use black_circle.Shell.{read_command, skip_space, take_word, take_to_end, print}
use black_circle.Shell.Print.{select, print-select}
use black_circle.Tests.Data.{platform, unset}

abbrev ann : User ℕ
ann = record (fresh_user unset) { id = 1; screen_name = codes "ann" }

abbrev bob : User ℕ
bob = record (fresh_user unset) { id = 2; screen_name = codes "bob" }

abbrev tweet_by : ℕ → ℕ → Tweet ℕ
tweet_by id user = record (fresh_tweet unset) { id = id; user = user }

abbrev two : Stores ℕ
two = record { users = ann ∷ bob ∷ []; tweets = tweet_by 5 2 ∷ tweet_by 6 1 ∷ [] }

print-select_example : print platform unset (codes "@ann") two ≡ some ((0 ∷ codes " @ann: \n") ∷ [])
unfolding find_user select fresh_tweet
print-select_example =
    print-select platform unset two (codes "ann") ((bob, refl), ((ann, refl), tt))

-- The arguments of a command that has none are the line after it.
read_command_run :
    read_command (codes "get\nexit\n")
    ≡ record { cmd = codes "get"; args = codes "exit"; left = [] }
unfolding read_command skip_space take_word take_to_end
read_command_run = refl

abbrev idle : TwitterClient
idle = record { req = token_requester; ust = none; next = 0; sent = []; stopped = false }
