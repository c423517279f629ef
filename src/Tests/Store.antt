-- ===== src/Tests/Store.antt =====
-- Runs of IPCs/SharedMemory/KeyValueStored/server.c.
use iitm.Prelude.{◌≡◌, refl, replicate, some, [], ◌∷◌, Text, eqb_text, arith}
use iitm.KeyValueStore.{
  Store, max_items, replace_value, set_value, get_value, set, get, value, ok, not_found, answer,
}
use iitm.KeyValueStore.Lookup.{has_key, answer_set_lem}

program : Unit {0}
unfolding eqb_text replace_value set_value get_value answer has_key
program = tt

abbrev name : Text
name = b'n' ∷ b'a' ∷ b'm' ∷ b'e' ∷ []

abbrev ravi : Text
ravi = b'r' ∷ b'a' ∷ b'v' ∷ b'i' ∷ []

abbrev one_pair : Store
one_pair = record { key = name; val = b'x' ∷ [] } ∷ []

answer_set_lem_example :
    ((answer (set (some (name, ravi))) one_pair).0 ≡ ok)
    × ((answer (get (some name)) (answer (set (some (name, ravi))) one_pair).1).0 ≡ value ravi)
unfolding program
answer_set_lem_example = answer_set_lem name ravi one_pair (omega arith) (omega arith) name

-- a full store answers OK and keeps nothing
abbrev full : Store
full = replicate max_items (record { key = ravi; val = [] })

dropped : (answer (get (some name)) (answer (set (some (name, ravi))) full).1).0 ≡ not_found
unfolding program
dropped = refl
