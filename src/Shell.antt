-- ===== src/Shell.antt =====
-- `console_handler` of black_circle.cc: the commands that are typed.
pub mod Print
pub mod Keeps
use black_circle.Prelude.{
  ℕ, Bool, true, false, ◌&&◌, ◌||◌, leb, List, [], ◌∷◌, ◌++◌, Option, none, some, Bytes, codes,
  bytes_eq, ◌==◌, if◌then◌else◌,
}
use black_circle.OAuth.{Crypto, Draw, Outcome, returned, threw}
use black_circle.Twitter.Types.{Platform, User, Tweet, Fresh, Stores}
use black_circle.Twitter.UserStore.{find_user}
use black_circle.Entity.{show_tweet}
use black_circle.Client.{TwitterClient, request_friends_timeline, statuses_update, shutdown}

-- What a stream skips as white space.
abbrev pub is_space : ℕ → Bool
is_space c = c == 32 || leb 9 c && leb c 13

unfoldable pub skip_space : Bytes → Bytes
skip_space [] = []
skip_space (c ∷ s) = let rest = skip_space s in if is_space c then rest else c ∷ s

-- `is >> cmd` behind the white space: the word, and what is left.
unfoldable pub take_word : Bytes → Bytes × Bytes
take_word [] = ([], [])
take_word (c ∷ s) =
    let rest = take_word s in if is_space c then ([], c ∷ s) else (c ∷ rest.0, rest.1)

-- `getline`: the line, and what is left.
unfoldable pub take_to_end : Bytes → Bytes × Bytes
take_to_end [] = ([], [])
take_to_end (c ∷ s) =
    let rest = take_to_end s in if c == b'\n' then ([], s) else (c ∷ rest.0, rest.1)

-- The command and its arguments, and what stays in the buffer. The `sentry` skips line ends too.
pub record Command : Type 0 where
  pub cmd : Bytes
  pub args : Bytes
  pub left : Bytes

unfoldable pub read_command : Bytes → Command
unfolding skip_space take_word take_to_end
read_command sb =
    let word = take_word (skip_space sb) in
    let line = take_to_end (skip_space word.1) in
    record { cmd = word.0; args = line.0; left = line.1 }

module _ (P : Platform) (f : Fresh P.Time) where
  open P use {Time}

  -- A line for each tweet; `none` where an author is read past the end of the store.
  unfoldable pub print_all : Stores Time → List (Tweet Time) → Option (List Bytes)
  print_all s [] = some []
  print_all s (t ∷ l) =
      let rest = print_all s l in
      elim (show_tweet P f s t) [
        | none ↦ none
        | some x ↦ elim rest [ none ↦ none | some xs ↦ some ((x ++ (b'\n' ∷ [])) ∷ xs) ]
      ]

  -- `by_user(name)`.
  pub by_user : Bytes → Stores Time → Tweet Time → Option Bool
  by_user name s t = elim (find_user t.user s.users) [
    | none ↦ none
    | some u ↦ some (bytes_eq u.screen_name name)
  ]

  -- `boost::adaptors::filtered(by_user(name))`.
  unfoldable pub filtered : Bytes → Stores Time → List (Tweet Time) → Option (List (Tweet Time))
  unfolding by_user
  filtered name s [] = some []
  filtered name s (t ∷ l) =
      let rest = filtered name s l in
      elim (by_user name s t) [
        | none ↦ none
        | some b ↦ elim rest [ none ↦ none | some ts ↦ some (if b then t ∷ ts else ts) ]
      ]

  -- `operator <<` of a user, on a line.
  pub print_users : List (User Time) → List Bytes
  print_users [] = []
  print_users (u ∷ l) = (b'@' ∷ (u.screen_name ++ (b'\n' ∷ []))) ∷ print_users l

  pub print_by : Bytes → Stores Time → Option (List Bytes)
  unfolding filtered print_all
  print_by name s = elim (filtered name s s.tweets) [ none ↦ none | some ts ↦ print_all s ts ]

  -- The command "print".
  unfoldable pub print : Bytes → Stores Time → Option (List Bytes)
  unfolding print_all print_by print_users
  print [] s = print_all s s.tweets
  print (c ∷ name) s =
      if c == b'@'
      then print_by name s
      else if bytes_eq (c ∷ name) (codes "users")
      then some (print_users s.users)
      else some []

  -- What a command leaves: the client, what is printed, the buffer, and whether it reads on.
  pub record Shell : Type 0 where
    pub client : TwitterClient
    pub printed : Option (List Bytes)
    pub buffer : Bytes
    pub reads_on : Bool

  module _ (c : Crypto) (d : Draw) where
    -- After a call of the client; if it threw, nothing is read any more.
    pub after_call : Bytes → TwitterClient × Outcome → Shell
    after_call left (t, returned) = record {
      client = t;
      printed = some [];
      buffer = left;
      reads_on = true;
    }
    after_call left (t, threw) = record {
      client = t;
      printed = some [];
      buffer = left;
      reads_on = false;
    }

    pub run_command : Command → Stores Time → TwitterClient → Shell
    unfolding after_call
    run_command k s t =
        if bytes_eq k.cmd (codes "get")
        then after_call k.left (request_friends_timeline c d t)
        else if bytes_eq k.cmd (codes "print")
        then record { client = t; printed = print k.args s; buffer = k.left; reads_on = true }
        else if bytes_eq k.cmd (codes "post")
        then after_call k.left (statuses_update c k.args d t)
        else if bytes_eq k.cmd (codes "exit")
        then record { client = shutdown t; printed = some []; buffer = k.left; reads_on = false }
        else record { client = t; printed = some []; buffer = k.left; reads_on = true }

    unfoldable pub readline_handler : Bytes → Stores Time → TwitterClient → Shell
    unfolding run_command
    readline_handler sb s t = run_command (read_command sb) s t
