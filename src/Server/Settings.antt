-- ===== src/Server/Settings.antt =====
-- server.c: how main and handle_request read the entries of the configuration into their variables, each
-- an `int` of four bytes into which `get` copies the bytes of a value, however many there are.
use local_server_c.Base.{
  ℕ, ◌+◌, ◌-◌, ◌*◌, ◌^◌, Option, none, some, false, List, ◌++◌, if◌then◌else◌, ltb, length, drop,
  get_or, ℤ, pos, negsuc,
}
use local_server_c.Base.Text.{codes}
use local_server_c.Queue.Life.{World}
use local_server_c.Response.{Limit}
use local_server_c.Yml.{int_bytes}
use local_server_c.Yml.Parser.{Parser, Ran, get}
use local_server_c.Server.Life
use local_server_c.Server.Crowd.{Crowd}
use local_server_c.Server.Life.{MainEnv, MainEnd, Visit}

-- A variable after a call of `get`: its bytes, or a write past its end, or a walk through a broken chain.
pub data Loaded : Type 0 where
  loaded : List ℕ → Loaded
  overrun : Loaded
  crashed : Loaded

-- `get(config, key, &variable)`.
unfoldable pub load : Parser → List ℕ → List ℕ → Loaded
load p key variable = elim (get (some p) key false) [
  | Ran.returned r bytes ↦
      if ltb (length variable) (length bytes)
      then overrun
      else loaded (bytes ++ drop (length bytes) variable)
  | Ran.waits ↦ loaded variable
  | Ran.undefined_access ↦ crashed
]

-- The bit pattern of a variable.
unfoldable pub word_of : List ℕ → ℕ
word_of bytes =
    get_or bytes 0 0
    + get_or bytes 1 0 * 256
    + get_or bytes 2 0 * 65536
    + get_or bytes 3 0 * 16777216

-- The value of an `int`, and its conversion to `size_t`.
unfoldable pub int_value : ℕ → ℤ
int_value w = if ltb w (2 ^ 31) then pos w else negsuc (2 ^ 32 - 1 - w)

unfoldable pub as_size : ℕ → ℕ
as_size w = if ltb w (2 ^ 31) then w else 2 ^ 64 - 2 ^ 32 + w

-- The variables of `main`.
pub record Settings : Type 0 where
  pub res_timeout : List ℕ
  pub daemon : List ℕ
  pub nb_slots : List ℕ

-- The three calls of `get` in `main`: `res_timeout` is 5 and `daemon` 0 before them, `nb_slots` holds what
-- is in its memory. `none` where a call goes wrong.
unfoldable pub settings : Parser → List ℕ → Option Settings
settings p memory = elim (load p (codes "res_timeout") (int_bytes 5)) [
  | overrun ↦ none
  | crashed ↦ none
  | loaded timeout ↦ elim (load p (codes "daemon") (int_bytes 0)) [
    | overrun ↦ none
    | crashed ↦ none
    | loaded daemon ↦ elim (load p (codes "slots") memory) [
      | overrun ↦ none
      | crashed ↦ none
      | loaded slots ↦ some (record { res_timeout = timeout; daemon = daemon; nb_slots = slots })
    ]
  ]
]

-- `main` on the variables that its configuration gives.
unfoldable pub configured :
    Parser → List ℕ → MainEnv → List Visit → World → Option (MainEnd × World × Crowd)
configured p memory env visits w = elim (settings p memory) [
  | none ↦ none
  | some s ↦
      let slots = as_size (word_of s.nb_slots) in
      some (Life.main (record env { daemon = word_of s.daemon; slots = slots }) visits w)
]

-- The limit of `handle_request` on a response: -1 before the call of `get`, a negative number for none.
unfoldable pub response_limit : Parser → Option Limit
response_limit p = elim (load p (codes "response_limit") (int_bytes (2 ^ 32 - 1))) [
  | overrun ↦ none
  | crashed ↦ none
  | loaded bytes ↦ elim (int_value (word_of bytes)) [ pos n ↦ some (some n) | negsuc n ↦ some none ]
]
