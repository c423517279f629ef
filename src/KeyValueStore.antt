-- ===== src/KeyValueStore.antt =====
-- IPCs/SharedMemory/KeyValueStored/server.c: the store of keys and values and the requests of one
-- client. `sscanf` and the socket are not modelled: a request is what `sscanf` makes of its line.
pub mod Lookup
use iitm.Prelude.{
  ℕ, Bool, true, false, Option, some, none, List, [], ◌∷◌, ◌++◌, length, take, ltb, if◌then◌else◌,
  Text, eqb_text,
}

pub record KvPair : Type 0 where
  pub key : Text
  pub val : Text

-- the first `store_count` elements of `store`
abbrev pub Store : Type 0
Store = List KvPair

abbrev pub max_items : ℕ
max_items = 128

-- what `strncpy` copies into a key and into a value: one byte less than the field, the last is zero
abbrev pub key_len : ℕ
key_len = 63

abbrev pub val_len : ℕ
val_len = 255

-- `strncpy(store[i].val, v, VAL_LEN - 1)` for the first element with the key, if there is one
unfoldable pub replace_value : Text → Text → Store → Option Store
replace_value k v [] = none
replace_value k v (pair ∷ rest) =
    let later = replace_value k v rest in
    if eqb_text pair.key k
    then some (record pair { val = take val_len v } ∷ rest)
    else elim later [ none ↦ none | some rest' ↦ some (pair ∷ rest') ]

-- A full store drops the pair.
unfoldable pub set_value : Text → Text → Store → Store
set_value k v store = elim (replace_value k v store) [
  | some store' ↦ store'
  | none ↦
      if ltb (length store) max_items
      then store ++ record { key = take key_len k; val = take val_len v } ∷ []
      else store
]

unfoldable pub get_value : Text → Store → Option Text
get_value k [] = none
get_value k (pair ∷ rest) =
    let later = get_value k rest in if eqb_text pair.key k then some pair.val else later

-- a line that was read, without its end: after SET and GET, what `sscanf` finds
pub data Request : Type 0 where
  set : Option (Text × Text) → Request
  get : Option Text → Request
  exit : Request
  unknown : Request

pub data Reply : Type 0 where
  ok : Reply
  value : Text → Reply
  not_found : Reply
  usage_set : Reply
  usage_get : Reply
  bye : Reply
  unknown_command : Reply

abbrev pub reply_value : Option Text → Reply
reply_value none = not_found
reply_value (some v) = value v

-- one round of the loop of `client_handler`
unfoldable pub answer : Request → Store → Reply × Store
answer (set (some (k, v))) store = (ok, set_value k v store)
answer (set none) store = (usage_set, store)
answer (get (some k)) store = (reply_value (get_value k store), store)
answer (get none) store = (usage_get, store)
answer exit store = (bye, store)
answer unknown store = (unknown_command, store)
